-- ===== src/Table/Play.antt =====
-- uknow.go: `tryPlayCard`, in its steps, and `checkIfPlayerHasWon`.
use uknow.Prelude.{
  ◌+◌, Bool, true, false, not, ◌||◌, String, [], ◌∷◌, ◌++◌, Outcome, ok, err, panic, or_err, insert,
  lookup, ◌==◌, if◌then◌else◌, take, drop,
}
use uknow.Card.{Card, is_wild, is_action}
use uknow.Deck.{DeckError, Sorter, top, push, find_card, must_find_card, is_empty}
use uknow.Event.{card_transfer, player_passed_turn, player_has_won, pile, player_hand}
use uknow.Table.{
  Table, TableState, TableError, PlayerDecision, state_eq, eval_decision, hand_of,
  set_required_number, start_of_turn, awaiting_drop_or_pass, awaiting_wild_card_color_decision,
  awaiting_wild_draw4_card_color_decision, play_hand_card, err_card_not_in_hand, err_unknown_player,
  illegal_play,
}
use uknow.Table.Game.{M, ◌>>=◌, ◌>>◌, return, lift, require, when, get_table, modify, send}
use uknow.Table.Eval.{
  is_local, set_required_color, set_state, set_neighbor_as_next_player, eval_played_action_card,
}

abbrev pub in_state : TableState → Table → Bool
in_state state t = state_eq t.table_state state

-- A deck call whose error is turned into a table's error, or into a panic.
abbrev pub deck_or {ℓ} : {A : Type ℓ} → Outcome DeckError A → TableError → Outcome TableError A
deck_or (ok a) e = ok a
deck_or (err _) e = err e
deck_or panic e = panic

abbrev pub deck_must {ℓ} : {A : Type ℓ} → Outcome DeckError A → Outcome TableError A
deck_must (ok a) = ok a
deck_must (err _) = panic
deck_must panic = panic

unfoldable pub need_more_user_decision_to_finish_turn : Table → Bool
need_more_user_decision_to_finish_turn t =
    in_state awaiting_wild_card_color_decision t
    || in_state awaiting_wild_draw4_card_color_decision t
    || in_state awaiting_drop_or_pass t

-- The card leaves the hand and goes on the pile.
unfoldable pub drop_card : String → Card → M (Unit {0})
drop_card deciding_player card_to_play g =
    let hand = hand_of deciding_player g.table in
    elim (must_find_card hand card_to_play) [
      | ok card_loc ↦ (
        ok tt,
        record g {
          table = record g.table {
            hand_of_player =
                insert deciding_player (take card_loc hand ++ drop (card_loc + 1) hand)
                  g.table.hand_of_player;
            discarded_pile = push g.table.discarded_pile (card_to_play ∷ []);
          };
        },
      )
      | err e ↦ (panic, g)
      | panic ↦ (panic, g)
    ]

abbrev pub send_dropped : String → Card → M (Unit {0})
send_dropped deciding_player c = do
  t ← get_table
  send (
      card_transfer (record {
        source = player_hand;
        sink = pile;
        source_player = deciding_player;
        sink_player = "";
        card = c;
        is_from_local_client = is_local deciding_player t;
      }))

abbrev pub send_passed : String → M (Unit {0})
send_passed deciding_player = do
  t ← get_table
  send (
      player_passed_turn (record {
        player = deciding_player;
        player_of_next_turn = t.player_of_next_turn;
        is_from_local_client = is_local deciding_player t;
      }))

abbrev pub played : Card → PlayerDecision
played c = record { kind = play_hand_card; result_card = c; wild_card_chosen_color = 0 }

-- Whether the card may go on the pile.
abbrev pub is_legal : Table → Card → Bool
is_legal t c =
    (c.number == t.required_number_of_current_turn || is_wild c)
    || t.required_color_of_current_turn == c.color

-- The checks of `tryPlayCard`, before anything changes.
unfoldable pub check_play : String → Card → M (Unit {0})
check_play deciding_player card_to_play = do
  t ← get_table
  hand ← lift (
      or_err (lookup deciding_player t.hand_of_player)
        (eval_decision (played card_to_play) (err_unknown_player deciding_player)))
  _ ← lift (
      deck_or (find_card hand card_to_play)
        (eval_decision (played card_to_play) err_card_not_in_hand))
  top_of_pile ← lift (deck_must (top t.discarded_pile))
  require (is_legal t card_to_play) (
      eval_decision (played card_to_play)
        (illegal_play card_to_play t.required_color_of_current_turn top_of_pile.number))

unfoldable pub eval_played_number_card : String → Card → M (Unit {0})
eval_played_number_card deciding_player card_to_play = do
  set_neighbor_as_next_player deciding_player start_of_turn
  modify (set_state start_of_turn)
  set_required_color card_to_play.color
  modify (set_required_number card_to_play.number)

unfoldable pub eval_played_card : Sorter → String → Card → M (Unit {0})
eval_played_card s deciding_player card_to_play =
    if is_action card_to_play.number
    then eval_played_action_card s deciding_player card_to_play
    else eval_played_number_card deciding_player card_to_play

-- What follows once the card is on the pile.
unfoldable pub finish_play : Sorter → String → Card → M (Unit {0})
finish_play s deciding_player card_to_play = do
  send_dropped deciding_player card_to_play
  modify λ t. record t {
    winner_player_name =
        if is_empty (hand_of deciding_player t) then deciding_player else t.winner_player_name;
  }
  eval_played_card s deciding_player card_to_play
  t ← get_table
  when (not (need_more_user_decision_to_finish_turn t)) (send_passed deciding_player)

unfoldable pub try_play_card : Sorter → String → Card → M PlayerDecision
try_play_card s deciding_player card_to_play = do
  check_play deciding_player card_to_play
  drop_card deciding_player card_to_play
  finish_play s deciding_player card_to_play
  return (played card_to_play)

abbrev send_won : String → M Bool
send_won deciding_player = do
  t ← get_table
  send (
      player_has_won
        (record { player = deciding_player; is_from_local_client = is_local deciding_player t }))
  modify λ u. record u { winner_player_name = deciding_player }
  return true

unfoldable pub check_if_player_has_won : String → M Bool
check_if_player_has_won deciding_player = do
  t ← get_table
  if is_empty (hand_of deciding_player t) then send_won deciding_player else return false
