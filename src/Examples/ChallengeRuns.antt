-- ===== src/Examples/ChallengeRuns.antt =====
-- A WildDrawFour card is played, its color is chosen, and the play is challenged.
use uknow.Prelude.{◌≡◌, ◌&&◌, not, refl, ap, inl, ok, arith, lookup, lookup_or, insert}
use uknow.Prelude.Int.{◌+ℤ◌, ◌*ℤ◌, ◌%ℤ◌}
use uknow.Card.{card, is_wild}
use uknow.Deck.{top, must_find_card, find_card, find_from}
use uknow.Table.{
  Table, PlayerDecision, play_hand_card, wild_card_choose_color, do_challenge, start_of_turn,
  awaiting_wild_draw4_challenge_decision, set_player_of_next_turn,
}
use uknow.Table.Game.{Game, run}
use uknow.Table.Seats.{
  index_from, get_next_player_index, wrap_index, player_at, player_index_from_name,
}
use uknow.Table.Play.{
  is_legal, try_play_card, check_play, drop_card, finish_play, eval_played_card,
  check_if_player_has_won, need_more_user_decision_to_finish_turn,
}
use uknow.Table.Eval.{
  set_state, eval_played_action_card, eval_wild_draw_four_card, set_required_color,
  set_neighbor_as_next_player,
}
use uknow.Table.Decide.{
  eval_player_decision, is_eligible, eval_play, eval_choose_color, choose_color_next,
}
use uknow.Table.Direction.{SeatOf}
use uknow.Table.Draws.{Drawn}
use uknow.Table.Challenge.{challenge_judges_play, eval_do_challenge-pays, payer}
use uknow.Examples.{insertion, three_players, game_of}

-- It is the turn of "ann", who holds a WildDrawFour card.
abbrev before : Game
before = game_of (record three_players { player_of_next_turn = "ann"; player_of_last_turn = "cyd" })

abbrev wild4 : PlayerDecision
wild4 = record { kind = play_hand_card; result_card = card 14 0; wild_card_chosen_color = 0 }

abbrev green : PlayerDecision
green = record { kind = wild_card_choose_color; result_card = card 0 0; wild_card_chosen_color = 2 }

abbrev after_play : Game
after_play = (eval_player_decision insertion "ann" wild4 before).1

abbrev after_color : Game
after_color = (eval_player_decision insertion "ann" green after_play).1

play_returns : (eval_player_decision insertion "ann" wild4 before).0 ≡ ok wild4
unfolding run eval_player_decision eval_play try_play_card check_play drop_card finish_play
    eval_played_card check_if_player_has_won need_more_user_decision_to_finish_turn
    eval_played_action_card eval_wild_draw_four_card set_required_color lookup lookup_or insert top
    must_find_card find_card find_from
play_returns = refl

choose_returns : (eval_player_decision insertion "ann" green after_play).0 ≡ ok green
unfolding run eval_player_decision eval_play try_play_card check_play drop_card finish_play
    eval_played_card check_if_player_has_won need_more_user_decision_to_finish_turn
    eval_played_action_card eval_wild_draw_four_card set_required_color lookup lookup_or insert top
    must_find_card find_card find_from eval_choose_color choose_color_next
    set_neighbor_as_next_player index_from get_next_player_index wrap_index player_at
    player_index_from_name ◌+ℤ◌ ◌*ℤ◌ ◌%ℤ◌
choose_returns = refl

challenge_judges_play_example :
    is_eligible after_color.table (card 8 1)
    ≡ (not (is_wild (card 8 1)) && is_legal before.table (card 8 1))
challenge_judges_play_example =
    challenge_judges_play insertion "ann" wild4 green before after_play after_color wild4 green refl
      refl refl (ap (λ r. (r, after_play)) play_returns) (ap (λ r. (r, after_color)) choose_returns)
      (card 8 1)

-- "bob" may challenge "ann".
abbrev challenged : Table
challenged = record three_players {
  table_state = awaiting_wild_draw4_challenge_decision;
  required_color_of_current_turn = 2;
  required_number_before_wild4 = 5;
}

abbrev challenge : PlayerDecision
challenge = record { kind = do_challenge; result_card = card 0 0; wild_card_chosen_color = 0 }

challenged-SeatOf : SeatOf challenged "bob" 1
unfolding lookup index_from
challenged-SeatOf = record { directed = inl refl; first = refl; index = refl; inside = omega arith }

eval_do_challenge-pays_example :
    (u : Table) × Drawn (payer challenged "bob") 4 challenged u
    × ((eval_player_decision insertion "bob" challenge (game_of challenged)).0 ≡ ok challenge)
    × ((eval_player_decision insertion "bob" challenge (game_of challenged)).1.table
        ≡ set_state start_of_turn (set_player_of_next_turn "cyd" u))
eval_do_challenge-pays_example =
    eval_do_challenge-pays insertion "bob" "cyd" 1 challenge (game_of challenged) refl refl
      (omega arith) challenged-SeatOf refl
