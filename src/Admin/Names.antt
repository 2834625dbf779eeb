-- ===== src/Admin/Names.antt =====
-- No step after the joining, short of a restart, changes who plays.
use uknow.Prelude.{ℕ, ◌≡◌, refl, ap, Bool, false, String, List, [], Option, some, arith}
use uknow.Deck.{Sorter}
use uknow.Card.{Card}
use uknow.Table.{Table, PlayerDecision}
use uknow.Table.Rules.{Keeps}
use uknow.Table.Eval.{pull_card}
use uknow.Table.Play.{drop_card}
use uknow.Table.Decide.{eval_player_decisions_no_transfer_chan}
use uknow.Table.Stable.{Stable}
use uknow.Table.Stable.Decisions.{eval_player_decisions-keeps}
use uknow.Table.Deal.{Rand}
use uknow.Admin.Server.{
  Admin, Goroutine, PlayerDecisionsRequest, SetReadyMessage, is_adding, handle_add_new_player,
  handle_ack_new_player_added, handle_ack_player_decision_synced, handle_set_ready,
  handle_player_decisions_event, sync_player_decision, log_ack, count_synced, run_new_turn,
  send_served_cards, sync_player_joined, send_chosen_player, run_callback,
}
use uknow.Admin.Dispatch.{
  dispatch_joined, dispatch_decision, dispatch_chosen, new_turn, count_ack, call_back, run_job,
  take_ack,
}
use uknow.Admin.Steps.{
  Step, adds_player, acks_player, acks_decision, sets_ready, decides, runs, takes_ack, times_out,
}

-- The names at the table are these. Each evaluation keeps it.
abbrev Named : List String → Table → Type 0
Named names t = t.player_names ≡ names

pull-Named :
    (names : List String) (s : Sorter) (name : String) (b : Bool)
    → Keeps (Named names) (pull_card s name b)
unfolding pull_card
pull-Named names s name b = record { at = λ g h. ground arith }

drop-Named :
    (names : List String) (name : String) (c : Card) → Keeps (Named names) (drop_card name c)
unfolding drop_card
drop-Named names name c = record { at = λ g h. ground arith }

Named-Stable : (names : List String) (s : Sorter) → Stable s (Named names)
Named-Stable names s = record {
  state = λ st e t h. h;
  color = λ c t h. h;
  number = λ k t h. h;
  before_wild4 = λ t h. h;
  winner = λ name t h. h;
  next = λ name t h. h;
  reverse = λ t h. h;
  pull = pull-Named names s;
  drop = drop-Named names;
}

eval-Named :
    (s : Sorter) (name : String) (ds : List PlayerDecision) (t : Table)
    → (eval_player_decisions_no_transfer_chan s name ds t).1.player_names ≡ t.player_names
unfolding eval_player_decisions_no_transfer_chan
eval-Named s name ds t =
    (eval_player_decisions-keeps (Named-Stable t.player_names s) name ds).at
      (record { table = t; sent = [] }) refl

module _ (s : Sorter) where
  decision-names :
      (sent : Bool) (request : PlayerDecisionsRequest) (a b : Admin)
      → dispatch_decision s sent request a ≡ some b
      → b.table.player_names ≡ a.table.player_names
  unfolding dispatch_decision
  decision-names sent request a b e =
      ground (arith, eval-Named s request.deciding_player request.decisions a.table)

  job-names :
      (sent via_prompt : Bool) (job : Goroutine) (a b : Admin)
      → run_job s sent via_prompt job a ≡ some b
      → b.table.player_names ≡ a.table.player_names
  unfolding run_job dispatch_joined dispatch_chosen new_turn call_back count_ack
  job-names sent via_prompt (sync_player_joined joiner) a b e = ground arith
  job-names sent via_prompt send_served_cards a b e = ground arith
  job-names sent via_prompt send_chosen_player a b e = ground arith
  job-names sent via_prompt run_new_turn a b e = ground arith
  job-names sent via_prompt (sync_player_decision request) a b e = decision-names sent request a b e
  job-names sent via_prompt (run_callback log_ack) a b e = ground arith
  job-names sent via_prompt (run_callback (count_synced sync)) a b e = ground arith

  add-names :
      (body : Option (List String)) (a : Admin)
      → is_adding a.state ≡ false
      → (handle_add_new_player body a).1.table.player_names ≡ a.table.player_names
  unfolding handle_add_new_player
  add-names body a h = ground arith

  abbrev names_of : Table → List String
  names_of t = t.player_names

  acks_player-table :
      (body : Option (String × String)) (a : Admin)
      → (handle_ack_new_player_added body a).1.table ≡ a.table
  unfolding handle_ack_new_player_added
  acks_player-table body a = ground arith

  acks_decision-table :
      (body : Option (String × ℕ)) (a : Admin)
      → (handle_ack_player_decision_synced body a).1.table ≡ a.table
  unfolding handle_ack_player_decision_synced
  acks_decision-table body a = ground arith

  decides-table :
      (taken : Bool) (body : Option PlayerDecisionsRequest) (a : Admin)
      → (handle_player_decisions_event taken body a).1.table ≡ a.table
  unfolding handle_player_decisions_event
  decides-table taken body a = ground arith

  sets_ready-table :
      (resolved : Bool) (r : Rand) (order : List String) (body : Option SetReadyMessage) (a : Admin)
      → is_adding a.state ≡ false
      → (handle_set_ready resolved r order body a).1.table ≡ a.table
  unfolding handle_set_ready
  sets_ready-table resolved r order body a h = ground arith

  take_ack-names : (a b : Admin) → take_ack a ≡ some b → b.table.player_names ≡ a.table.player_names
  unfolding take_ack
  take_ack-names a b e = ground arith

  -- Once the server no longer adds players, no step short of a restart changes the names at its table.
  pub Step-names :
      (a b : Admin)
      → Step s a b
      → is_adding a.state ≡ false
      → b.table.player_names ≡ a.table.player_names
  Step-names a _ (adds_player body l) h = add-names body a h
  Step-names a _ (acks_player body) h = ap names_of (acks_player-table body a)
  Step-names a _ (acks_decision body) h = ap names_of (acks_decision-table body a)
  Step-names a _ (sets_ready resolved r order body l) h =
      ap names_of (sets_ready-table resolved r order body a h)
  Step-names a _ (decides taken body l) h = ap names_of (decides-table taken body a)
  Step-names a b (runs sent via_prompt job rest l t e) h =
      job-names sent via_prompt job (record a { goroutines = rest }) b e
  Step-names a b (takes_ack e) h = take_ack-names a b e
  Step-names a _ (times_out goroutine e) h = refl
