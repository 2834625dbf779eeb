-- ===== src/Examples/PhaseRuns.antt =====
-- The theorems on the states of a table, on refusals, draws and challenges at concrete tables.
use uknow.Prelude.{◌≡◌, ◌≢◌, refl, inl, List, [], ◌∷◌, err, arith, lookup}
use uknow.Prelude.Int.{ℤ}
use uknow.Card.{Card, card}
use uknow.Table.{
  PlayerDecision, PlayerDecisionKind, pass, pull_from_deck, play_hand_card, unknown_kind,
  start_of_turn, awaiting_drop_or_pass, have_winner, eval_decision, err_already_drew_card,
  err_card_not_in_hand,
}
use uknow.Table.Seats.{index_from}
use uknow.Table.Play.{played}
use uknow.Table.Decide.{eval_player_decision, eval_player_decisions}
use uknow.Table.Direction.{SeatOf}
use uknow.Table.Turns.{eval-pass}
use uknow.Table.Phases.{Moves, eval_player_decision-Moves}
use uknow.Table.Invariants.{SeatedAs, have_winner_unreachable, eval_player_decisions-SeatedAs}
use uknow.Table.Refusals.{eval_player_decision-refused, eval_play-refused}
use uknow.Examples.{insertion, three_players, drawn_table, game_of}

abbrev decide : PlayerDecisionKind → Card → PlayerDecision
decide k c = record { kind = k; result_card = c; wild_card_chosen_color = 2 }

drawn_table-SeatOf' : SeatOf drawn_table "bob" 1
unfolding lookup index_from
drawn_table-SeatOf' = record {
  directed = inl refl;
  first = refl;
  index = refl;
  inside = omega arith;
}

abbrev passing : PlayerDecision
passing = decide pass (card 0 0)

not_unknown : (j : ℤ) → pass ≢ unknown_kind j
not_unknown j e = cc

eval_player_decision-Moves_example : Moves (card 0 0) awaiting_drop_or_pass pass start_of_turn
eval_player_decision-Moves_example =
    eval_player_decision-Moves insertion "bob" passing (game_of drawn_table) _ passing not_unknown (
      eval-pass (game_of drawn_table) "bob" 1 "cyd" drawn_table-SeatOf' refl insertion passing refl
        refl)

-- "cyd" drops the last card.
abbrev last_card : List PlayerDecision
last_card = decide play_hand_card (card 4 4) ∷ []

at_start_of_turn : start_of_turn ≢ have_winner
at_start_of_turn e = cc

have_winner_unreachable_example :
    (eval_player_decisions insertion "cyd" last_card (game_of three_players)).1.table.table_state
    ≢ have_winner
have_winner_unreachable_example =
    have_winner_unreachable insertion "cyd" last_card (game_of three_players) at_start_of_turn

eval_player_decisions-SeatedAs_example :
    SeatedAs three_players
      (eval_player_decisions insertion "cyd" last_card (game_of three_players)).1.table
eval_player_decisions-SeatedAs_example =
    eval_player_decisions-SeatedAs insertion "cyd" last_card (game_of three_players) (inl refl)

abbrev drawing : PlayerDecision
drawing = decide pull_from_deck (card 0 0)

eval_player_decision-refused_example :
    eval_player_decision insertion "bob" drawing (game_of drawn_table)
    ≡ (err (eval_decision drawing err_already_drew_card), game_of drawn_table)
eval_player_decision-refused_example =
    eval_player_decision-refused insertion "bob" drawing (game_of drawn_table) refl

eval_play-refused_example :
    eval_player_decision insertion "bob" (decide play_hand_card (card 4 4)) (game_of three_players)
    ≡ (err (eval_decision (played (card 4 4)) err_card_not_in_hand), game_of three_players)
unfolding lookup
eval_play-refused_example =
    eval_play-refused insertion "bob" (decide play_hand_card (card 4 4)) (game_of three_players)
      (eval_decision (played (card 4 4)) err_card_not_in_hand) refl refl refl
