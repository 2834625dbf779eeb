-- ===== src/Admin/Steps.antt =====
-- The server between restarts as a transition system: requests, goroutines, timers and received acks
-- in any order.
use mathlib.Core.Path.{subst}
use uknow.Prelude.{
  ℕ, ◌≡◌, refl, sym, ◌⊎◌, inl, inr, Bool, true, false, String, List, ◌∷◌, Option, some, arith,
}
use uknow.Deck.{Sorter}
use uknow.Table.{Table, TableState, state_eq, have_winner as table_has_winner}
use uknow.Table.Deal.{Rand}
use uknow.Admin.Acks.{time_out, ExpectedAcksList}
use uknow.Admin.Server.{
  Admin, AdminState, AckCallback, Goroutine, PlayerDecisionsRequest, SetReadyMessage,
  is_done_syncing, handle_add_new_player, handle_ack_new_player_added,
  handle_ack_player_decision_synced, handle_set_ready, handle_player_decisions_event,
  adding_players, ready_to_serve_cards, waiting_for_player_decision, syncing_player_decision,
  sync_player_decision, log_ack, count_synced, run_new_turn, send_served_cards,
  done_syncing_player_decision, player_chosen_for_turn, have_winner, sync_player_joined,
  send_chosen_player, run_callback,
}
use uknow.Admin.Dispatch.{
  dispatch_joined, dispatch_decision, dispatch_chosen, new_turn, count_ack, call_back, run_job,
  take_ack,
}

-- The goroutine is in the list, and the rest of the list is the other one.
pub data Takes (job : Goroutine) : List Goroutine → List Goroutine → Type 0 where
  first : {jobs : List Goroutine} → Takes job (job ∷ jobs) jobs
  later :
      {other : Goroutine} {jobs rest : List Goroutine}
      → Takes job jobs rest
      → Takes job (other ∷ jobs) (other ∷ rest)

-- What the server does next. A handler and a goroutine wait for the mutex; a timer and the round
-- that takes an ack do not need it.
pub data Step (s : Sorter) : Admin → Admin → Type 0 where
  adds_player :
      {a : Admin} (body : Option (List String))
      → a.locked ≡ false
      → Step s a (handle_add_new_player body a).1
  acks_player :
      {a : Admin} (body : Option (String × String))
      → Step s a (handle_ack_new_player_added body a).1
  acks_decision :
      {a : Admin} (body : Option (String × ℕ))
      → Step s a (handle_ack_player_decision_synced body a).1
  sets_ready :
      {a : Admin} (resolved : Bool) (r : Rand) (order : List String) (body : Option SetReadyMessage)
      → a.locked ≡ false
      → Step s a (handle_set_ready resolved r order body a).1
  decides :
      {a : Admin} (taken : Bool) (body : Option PlayerDecisionsRequest)
      → a.locked ≡ false
      → Step s a (handle_player_decisions_event taken body a).1
  runs :
      {a b : Admin} (sent via_prompt : Bool) (job : Goroutine) (rest : List Goroutine)
      → a.locked ≡ false
      → Takes job a.goroutines rest
      → run_job s sent via_prompt job (record a { goroutines = rest }) ≡ some b
      → Step s a b
  takes_ack : {a b : Admin} → take_ack a ≡ some b → Step s a b
  times_out :
      {a : Admin} {callback : AckCallback} {es : ExpectedAcksList AckCallback} (goroutine : ℕ)
      → time_out goroutine a.expected_acks_list ≡ some (callback, es)
      → Step s a (record a { expected_acks_list = es })

-- How a step changes the state of the server.
pub data Moves (t : Table) : AdminState → AdminState → Type 0 where
  stays : {st : AdminState} → Moves t st st
  readies : Moves t adding_players ready_to_serve_cards
  waits : {st : AdminState} → Moves t st waiting_for_player_decision
  syncs : {st : AdminState} → Moves t st syncing_player_decision
  done : {st : AdminState} → Moves t st done_syncing_player_decision
  chooses : Moves t done_syncing_player_decision player_chosen_for_turn
  ends : {st : AdminState} → t.table_state ≡ table_has_winner → Moves t st have_winner

abbrev MovesTo : Admin → Admin → Type 0
MovesTo a b = Moves a.table a.state b.state

same : (a b : Admin) → b.state ≡ a.state → MovesTo a b
same a b e = subst (λ st. Moves a.table a.state st) (sym e) stays

add-state :
    (body : Option (List String)) (a : Admin) → (handle_add_new_player body a).1.state ≡ a.state
unfolding handle_add_new_player
add-state body a = ground arith

ack_player-state :
    (body : Option (String × String)) (a : Admin)
    → (handle_ack_new_player_added body a).1.state ≡ a.state
unfolding handle_ack_new_player_added
ack_player-state body a = ground arith

ack_decision-state :
    (body : Option (String × ℕ)) (a : Admin)
    → (handle_ack_player_decision_synced body a).1.state ≡ a.state
unfolding handle_ack_player_decision_synced
ack_decision-state body a = ground arith

decide-state :
    (taken : Bool) (body : Option PlayerDecisionsRequest) (a : Admin)
    → (handle_player_decisions_event taken body a).1.state ≡ a.state
unfolding handle_player_decisions_event
decide-state taken body a = ground arith

set_ready-state :
    (resolved : Bool) (r : Rand) (order : List String) (body : Option SetReadyMessage) (a : Admin)
    → ((handle_set_ready resolved r order body a).1.state ≡ a.state)
      ⊎ ((a.state ≡ adding_players)
          × ((handle_set_ready resolved r order body a).1.state ≡ ready_to_serve_cards))
unfolding handle_set_ready
set_ready-state resolved r order body a = ground arith

take_ack-state : (a b : Admin) → take_ack a ≡ some b → b.state ≡ a.state
unfolding take_ack
take_ack-state a b e = ground arith

dispatch_joined-state : (joiner : String) (a : Admin) → (dispatch_joined joiner a).state ≡ a.state
unfolding dispatch_joined
dispatch_joined-state joiner a = refl

dispatch_decision-state :
    (s : Sorter) (sent : Bool) (request : PlayerDecisionsRequest) (a b : Admin)
    → dispatch_decision s sent request a ≡ some b
    → (b.state ≡ a.state) ⊎ (b.state ≡ syncing_player_decision)
unfolding dispatch_decision
dispatch_decision-state s sent request a b e = ground arith

dispatch_chosen-state :
    (sent : Bool) (a : Admin)
    → ((dispatch_chosen sent a).state ≡ a.state)
      ⊎ ((dispatch_chosen sent a).state ≡ waiting_for_player_decision)
unfolding dispatch_chosen
dispatch_chosen-state sent a = ground arith

call_back-state :
    (callback : AckCallback) (a : Admin)
    → ((call_back callback a).state ≡ a.state)
      ⊎ ((call_back callback a).state ≡ done_syncing_player_decision)
unfolding call_back count_ack
call_back-state log_ack a = inl refl
call_back-state (count_synced sync) a = ground arith

is_done : (st : AdminState) → is_done_syncing st ≡ true → st ≡ done_syncing_player_decision
is_done st e = ground arith

won : (st : TableState) → state_eq st table_has_winner ≡ true → st ≡ table_has_winner
won st e = ground arith

new_turn-state :
    (via_prompt : Bool) (a b : Admin)
    → new_turn via_prompt a ≡ some b
    → (b.state ≡ a.state)
      ⊎ (((a.state ≡ done_syncing_player_decision) × (b.state ≡ player_chosen_for_turn))
          ⊎ ((a.table.table_state ≡ table_has_winner) × (b.state ≡ have_winner)))
unfolding new_turn
new_turn-state via_prompt a b e = ground (arith, is_done a.state, won a.table.table_state)

to_state : (a b : Admin) {st : AdminState} → b.state ≡ st → Moves a.table a.state st → MovesTo a b
to_state a b e m = subst (λ st. Moves a.table a.state st) (sym e) m

run_job-Moves :
    (s : Sorter) (sent via_prompt : Bool) (job : Goroutine) (a b : Admin)
    → run_job s sent via_prompt job a ≡ some b
    → MovesTo a b
unfolding run_job
run_job-Moves s sent via_prompt (sync_player_joined joiner) a b e =
    same a b (ground (arith, dispatch_joined-state joiner a, e))
run_job-Moves s sent via_prompt send_served_cards a b e = same a b (ground arith)
run_job-Moves s sent via_prompt send_chosen_player a b e = elim (dispatch_chosen-state sent a) [
  | inl q ↦ same a b (ground (arith, e, q))
  | inr q ↦ to_state a b (ground (arith, e, q)) waits
]
run_job-Moves s sent via_prompt run_new_turn a b e = elim (new_turn-state via_prompt a b e) [
  | inl q ↦ same a b q
  | inr (inl (p, q)) ↦
      subst (λ st. Moves a.table st b.state) (sym p)
        (subst (λ st. Moves a.table done_syncing_player_decision st) (sym q) chooses)
  | inr (inr (p, q)) ↦ to_state a b q (ends p)
]
run_job-Moves s sent via_prompt (sync_player_decision request) a b e =
    elim (dispatch_decision-state s sent request a b e) [
      | inl q ↦ same a b q
      | inr q ↦ to_state a b q syncs
    ]
run_job-Moves s sent via_prompt (run_callback callback) a b e = elim (call_back-state callback a) [
  | inl q ↦ same a b (ground (arith, e, q))
  | inr q ↦ to_state a b (ground (arith, e, q)) done
]

-- One step of the server, whatever it does next short of a restart: it becomes ready to serve only from
-- adding players, and does not go back to adding players; it chooses a player only when a decision is
-- synced; it gets a winner only if the table has one; and it enters neither the state for served cards
-- nor the one for the decision of a challenge.
pub Step-Moves : (s : Sorter) (a b : Admin) → Step s a b → Moves a.table a.state b.state
Step-Moves s a _ (adds_player body l) = same a (handle_add_new_player body a).1 (add-state body a)
Step-Moves s a _ (acks_player body) =
    same a (handle_ack_new_player_added body a).1 (ack_player-state body a)
Step-Moves s a _ (acks_decision body) =
    same a (handle_ack_player_decision_synced body a).1 (ack_decision-state body a)
Step-Moves s a _ (sets_ready resolved r order body l) =
    elim (set_ready-state resolved r order body a) [
      | inl q ↦ same a (handle_set_ready resolved r order body a).1 q
      | inr (p, q) ↦
          subst (λ st. Moves a.table st (handle_set_ready resolved r order body a).1.state) (sym p)
            (subst (λ st. Moves a.table adding_players st) (sym q) readies)
    ]
Step-Moves s a _ (decides taken body l) =
    same a (handle_player_decisions_event taken body a).1 (decide-state taken body a)
Step-Moves s a b (runs sent via_prompt job rest l t e) =
    run_job-Moves s sent via_prompt job (record a { goroutines = rest }) b e
Step-Moves s a b (takes_ack e) = same a b (take_ack-state a b e)
Step-Moves s a _ (times_out goroutine e) = stays
