-- ===== src/Table/Eval.antt =====
-- uknow.go: `EvalPlayerDecision` and what it calls. A call takes the sorting that it uses first.
use uknow.Prelude.{
  ℕ, zero, suc, Bool, true, false, String, [], ◌∷◌, ◌++◌, ok, err, panic, insert, lookup_or, str_eq,
  ◌==◌, if◌then◌else◌,
}
use uknow.Prelude.Int.{ℤ, pos, neg}
use uknow.Card.{
  Card, Color, number_skip, number_reverse, number_draw_two, number_wild, number_wild_draw_four,
}
use uknow.Deck.{Deck, Sorter, top, must_pop, push}
use uknow.Event.{
  card_transfer, skip_card_action, draw_two_card_action, reverse_card_action,
  awaiting_wild_card_color_decision, required_color_updated, deck, player_hand,
}
use uknow.Table.{
  Table, TableState, bare, hand_of, set_required_color_fields, set_player_of_next_turn,
  set_required_number, start_of_turn, awaiting_wild_card_color_decision,
  awaiting_wild_draw4_card_color_decision, err_draw_deck_is_empty,
}
use uknow.Table.Seats.{get_next_player_index, player_at, player_index_from_name}
use uknow.Table.Game.{
  Game, M, ◌>>=◌, ◌>>◌, return, crash, lift, get_table, modify, send, drop_error,
}

-- The events `IsFromLocalClient: name == t.LocalPlayerName`.
abbrev pub is_local : String → Table → Bool
is_local name t = str_eq name t.local_player_name

-- The card goes from the top of the draw deck to the hand, and the event is sent.
abbrev pub pulled : Sorter → String → Bool → Card → Deck → Game → Game
pulled s target is_from_local_client c rest g = record g {
  table = record g.table {
    hand_of_player =
        insert target (s.sort_deck (push (hand_of target g.table) (c ∷ []))) g.table.hand_of_player;
    draw_deck = rest;
  };
  sent =
      g.sent
      ++ card_transfer (record {
        source = deck;
        sink = player_hand;
        source_player = "";
        sink_player = target;
        card = c;
        is_from_local_client = is_from_local_client;
      })
        ∷ [];
}

-- `pullCardFromDeckToPlayerHand`
unfoldable pub pull_card : Sorter → String → Bool → M Card
pull_card s target is_from_local_client g = elim (top g.table.draw_deck) [
  | ok c ↦ elim (must_pop g.table.draw_deck) [
    | ok rest ↦ (ok c, pulled s target is_from_local_client c rest g)
    | err e ↦ (panic, g)
    | panic ↦ (panic, g)
  ]
  | err e ↦ (err (bare err_draw_deck_is_empty), g)
  | panic ↦ (panic, g)
]

-- The loops that pull a number of cards and stop at the first error.
unfoldable pub pull_cards : Sorter → ℕ → String → Bool → M (Unit {0})
pull_cards s zero target is_from_local_client = return tt
pull_cards s (suc rounds) target is_from_local_client = do
  _ ← pull_card s target is_from_local_client
  pull_cards s rounds target is_from_local_client

unfoldable pub set_required_color : Color → M (Unit {0})
set_required_color new_color = do
  modify (set_required_color_fields new_color)
  send (required_color_updated (record { new_color = new_color }))

abbrev pub set_state : TableState → Table → Table
set_state state t = record t { table_state = state }

unfoldable pub set_neighbor_as_next_player : String → TableState → M (Unit {0})
set_neighbor_as_next_player current_player next_state = do
  t ← get_table
  player_index ← lift (player_index_from_name t current_player)
  next_player_index ← lift (get_next_player_index t (pos player_index) t.direction)
  next_player ← lift (player_at t next_player_index)
  modify λ u. set_state next_state (set_player_of_next_turn next_player u)

-- `t.IndexOfPlayer[name]`, 0 if there is none.
abbrev pub index_of : String → Table → ℤ
index_of name t = pos (lookup_or 0 name t.index_of_player)

-- The skipped player and the next player.
unfoldable pub set_next_player_skip_one : String → M (String × String)
set_next_player_skip_one deciding_player = do
  t ← get_table
  skipped_index ← lift (get_next_player_index t (index_of deciding_player t) t.direction)
  skipped ← lift (player_at t skipped_index)
  next_index ← lift (get_next_player_index t skipped_index t.direction)
  next ← lift (player_at t next_index)
  modify (set_player_of_next_turn next)
  return (skipped, next)

unfoldable pub eval_skip_card : String → Card → M (Unit {0})
eval_skip_card deciding_player action_card = do
  (skipped, next) ← set_next_player_skip_one deciding_player
  modify (set_state start_of_turn)
  set_required_color action_card.color
  modify (set_required_number action_card.number)
  t ← get_table
  send (
      skip_card_action (record {
        player = deciding_player;
        skipped_player = skipped;
        next_player = next;
        is_from_local_client = is_local deciding_player t;
      }))

unfoldable pub eval_draw_two_card : Sorter → String → Card → M (Unit {0})
eval_draw_two_card s deciding_player action_card = do
  (skipped, next) ← set_next_player_skip_one deciding_player
  modify (set_state start_of_turn)
  set_required_color action_card.color
  modify (set_required_number action_card.number)
  t ← get_table
  send (
      draw_two_card_action (record {
        player = deciding_player;
        skipped_player = skipped;
        next_player = next;
        is_from_local_client = is_local deciding_player t;
      }))
  drop_error (pull_cards s 2 skipped (is_local deciding_player t))

unfoldable pub eval_reverse_card : String → Card → M (Unit {0})
eval_reverse_card deciding_player action_card = do
  t ← get_table
  denied_index ← lift (get_next_player_index t (index_of deciding_player t) t.direction)
  modify λ u. record u { direction = neg u.direction }
  t' ← get_table
  next_index ← lift (get_next_player_index t' (index_of deciding_player t') t'.direction)
  next ← lift (player_at t' next_index)
  modify (set_player_of_next_turn next)
  denied ← lift (player_at t' denied_index)
  modify (set_state start_of_turn)
  set_required_color action_card.color
  modify (set_required_number action_card.number)
  send (
      reverse_card_action (record {
        player = deciding_player;
        denied_player = denied;
        next_player = next;
        is_from_local_client = is_local deciding_player t';
      }))

abbrev send_awaiting_color : String → Bool → M (Unit {0})
send_awaiting_color deciding_player is_draw4 = do
  t ← get_table
  send (
      awaiting_wild_card_color_decision (record {
        player = deciding_player;
        is_draw4 = is_draw4;
        ask_decision_from_local_player = is_local deciding_player t;
        is_from_local_client = is_local deciding_player t;
      }))

unfoldable pub eval_wild_card : String → M (Unit {0})
eval_wild_card deciding_player = do
  modify λ t. set_required_number number_wild (set_state awaiting_wild_card_color_decision t)
  send_awaiting_color deciding_player false

unfoldable pub eval_wild_draw_four_card : String → M (Unit {0})
eval_wild_draw_four_card deciding_player = do
  modify (set_state awaiting_wild_draw4_card_color_decision)
  modify λ t. record t { required_number_before_wild4 = t.required_number_of_current_turn }
  modify (set_required_number number_wild_draw_four)
  send_awaiting_color deciding_player true

unfoldable pub eval_played_action_card : Sorter → String → Card → M (Unit {0})
eval_played_action_card s deciding_player action_card =
    if action_card.number == number_skip
    then eval_skip_card deciding_player action_card
    else if action_card.number == number_draw_two
    then eval_draw_two_card s deciding_player action_card
    else if action_card.number == number_reverse
    then eval_reverse_card deciding_player action_card
    else if action_card.number == number_wild
    then eval_wild_card deciding_player
    else if action_card.number == number_wild_draw_four
    then eval_wild_draw_four_card deciding_player
    else crash
