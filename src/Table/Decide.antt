-- ===== src/Table/Decide.antt =====
-- uknow.go: one branch of `EvalPlayerDecision` each, `EvalPlayerDecision` and the loop over it.
-- With an error the decision of the returned pair is left out: no caller reads it.
use uknow.Prelude.{
  Bool, false, not, ◌&&◌, ◌||◌, String, List, [], ◌∷◌, Outcome, ◌==◌, if◌then◌else◌,
}
use uknow.Card.{Card, is_wild}
use uknow.Deck.{Deck, Sorter, is_empty}
use uknow.Event.{challenger_success, challenger_failed, awaiting_play_or_pass}
use uknow.Table.{
  Table, TableState, TableError, PlayerDecision, PlayerDecisionKind, eval_decision, hand_of,
  start_of_turn, awaiting_drop_or_pass, awaiting_wild_card_color_decision,
  awaiting_wild_draw4_card_color_decision, awaiting_wild_draw4_challenge_decision, pull_from_deck,
  play_hand_card, pass, wild_card_choose_color, do_challenge, dont_challenge, unknown_kind,
  err_already_drew_card, err_pass_without_draw_or_drop, err_invalid_decision,
  err_unexpected_decision,
}
use uknow.Table.Game.{M, ◌>>=◌, ◌>>◌, return, require, get_table, modify, send, wrap_error}
use uknow.Table.Play.{in_state, send_passed, try_play_card, check_if_player_has_won}
use uknow.Table.Eval.{
  is_local, pull_card, pull_cards, set_required_color, set_state, set_neighbor_as_next_player,
}

unfoldable pub eval_pull : Sorter → String → PlayerDecision → M PlayerDecision
eval_pull s deciding_player decision = do
  t ← get_table
  require (in_state start_of_turn t) (eval_decision decision err_already_drew_card)
  top_card ← wrap_error decision (pull_card s deciding_player (is_local deciding_player t))
  modify (set_state awaiting_drop_or_pass)
  send (
      awaiting_play_or_pass (record {
        player = deciding_player;
        ask_decision_from_local_player = is_local deciding_player t;
        is_from_local_client = false;
      }))
  return (record decision { result_card = top_card })

unfoldable pub eval_pass : String → PlayerDecision → M PlayerDecision
eval_pass deciding_player decision = do
  t ← get_table
  require (in_state awaiting_drop_or_pass t) (eval_decision decision err_pass_without_draw_or_drop)
  set_neighbor_as_next_player deciding_player start_of_turn
  send_passed deciding_player
  return decision

unfoldable pub eval_play : Sorter → String → PlayerDecision → M PlayerDecision
eval_play s deciding_player decision = do
  t ← get_table
  require (in_state start_of_turn t || in_state awaiting_drop_or_pass t)
      (eval_decision decision err_invalid_decision)
  _ ← try_play_card s deciding_player decision.result_card
  _ ← check_if_player_has_won deciding_player
  return decision

-- The state after the color is chosen, by whether it was chosen for a plain wild card.
abbrev pub color_next_state : Bool → TableState
color_next_state plain_wild =
    if plain_wild then start_of_turn else awaiting_wild_draw4_challenge_decision

unfoldable pub choose_color_next : String → M (Unit {0})
choose_color_next deciding_player = do
  t ← get_table
  modify (set_state (color_next_state (in_state awaiting_wild_card_color_decision t)))
  set_neighbor_as_next_player deciding_player
      (color_next_state (in_state awaiting_wild_card_color_decision t))

unfoldable pub eval_choose_color : String → PlayerDecision → M PlayerDecision
eval_choose_color deciding_player decision = do
  t ← get_table
  require
      (in_state awaiting_wild_card_color_decision t
        || in_state awaiting_wild_draw4_card_color_decision t)
      (eval_decision decision err_unexpected_decision)
  set_required_color decision.wild_card_chosen_color
  choose_color_next deciding_player
  return decision

-- Whether holding the card makes a challenge succeed.
abbrev pub is_eligible : Table → Card → Bool
is_eligible t c =
    not (is_wild c)
    && (c.color == t.required_color_of_last_turn || c.number == t.required_number_before_wild4)

-- The loop that collects the cards that pass a test.
abbrev pub select : (Card → Bool) → Deck → Deck
select p [] = []
select p (c ∷ d) = if p c then c ∷ select p d else select p d

abbrev pub eligible_cards : Table → Deck
eligible_cards t = select (is_eligible t) (hand_of t.player_of_last_turn t)

unfoldable pub challenge_succeeds : Sorter → String → M (Unit {0})
challenge_succeeds s deciding_player = do
  t ← get_table
  send (
      challenger_success (record {
        challenger_name = deciding_player;
        wild_draw4_player_name = t.player_of_last_turn;
        eligible_cards = eligible_cards t;
        is_from_local_client = is_local deciding_player t;
      }))
  pull_cards s 4 t.player_of_last_turn (is_local deciding_player t)

unfoldable pub challenge_fails : Sorter → String → M (Unit {0})
challenge_fails s deciding_player = do
  t ← get_table
  send (
      challenger_failed (record {
        challenger_name = deciding_player;
        wild_draw4_player_name = t.player_of_last_turn;
        is_from_local_client = is_local deciding_player t;
      }))
  pull_cards s 4 deciding_player (is_local deciding_player t)

unfoldable pub judge_challenge : Sorter → String → M (Unit {0})
judge_challenge s deciding_player g =
    if is_empty (eligible_cards g.table)
    then challenge_fails s deciding_player g
    else challenge_succeeds s deciding_player g

unfoldable pub eval_do_challenge : Sorter → String → PlayerDecision → M PlayerDecision
eval_do_challenge s deciding_player decision = do
  t ← get_table
  require (in_state awaiting_wild_draw4_challenge_decision t)
      (eval_decision decision err_unexpected_decision)
  judge_challenge s deciding_player
  set_neighbor_as_next_player deciding_player start_of_turn
  return decision

unfoldable pub eval_dont_challenge : Sorter → String → PlayerDecision → M PlayerDecision
eval_dont_challenge s deciding_player decision = do
  t ← get_table
  require (in_state awaiting_wild_draw4_challenge_decision t)
      (eval_decision decision err_unexpected_decision)
  pull_cards s 4 deciding_player (is_local deciding_player t)
  set_neighbor_as_next_player deciding_player start_of_turn
  return decision

abbrev pub eval_kind : Sorter → String → PlayerDecision → PlayerDecisionKind → M PlayerDecision
eval_kind s deciding_player decision pull_from_deck = eval_pull s deciding_player decision
eval_kind s deciding_player decision pass = eval_pass deciding_player decision
eval_kind s deciding_player decision play_hand_card = eval_play s deciding_player decision
eval_kind s deciding_player decision wild_card_choose_color =
    eval_choose_color deciding_player decision
eval_kind s deciding_player decision do_challenge = eval_do_challenge s deciding_player decision
eval_kind s deciding_player decision dont_challenge = eval_dont_challenge s deciding_player decision
eval_kind s deciding_player decision (unknown_kind k) = return decision

unfoldable pub eval_player_decision : Sorter → String → PlayerDecision → M PlayerDecision
eval_player_decision s deciding_player decision = eval_kind s deciding_player decision decision.kind

unfoldable pub eval_player_decisions : Sorter → String → List PlayerDecision → M (Unit {0})
eval_player_decisions s deciding_player [] = return tt
eval_player_decisions s deciding_player (decision ∷ decisions) = do
  _ ← eval_player_decision s deciding_player decision
  eval_player_decisions s deciding_player decisions

-- The same calls with a channel that nobody reads.
unfoldable pub eval_player_decisions_no_transfer_chan :
    Sorter → String → List PlayerDecision → Table → Outcome TableError (Unit {0}) × Table
eval_player_decisions_no_transfer_chan s deciding_player decisions t =
    let (r, g) =
      eval_player_decisions s deciding_player decisions (record { table = t; sent = [] }) in
    (r, g.table)
