-- ===== src/Table/Stable/Decisions.antt =====
-- The decisions of uknow.go, each with all that it calls, keep what the elementary updates keep.
use uknow.Prelude.{◌≡◌, refl, Bool, true, false, if◌then◌else◌, String, List, [], ◌∷◌}
use uknow.Card.{Card}
use uknow.Deck.{Sorter, is_empty}
use uknow.Table.{
  Table, PlayerDecision, PlayerDecisionKind, pull_from_deck, play_hand_card, pass,
  wild_card_choose_color, do_challenge, dont_challenge, unknown_kind,
}
use uknow.Table.Rules.{Keeps, Keeps-bind, keeps_rules}
use uknow.Table.Eval.{eval_played_action_card}
use uknow.Table.Play.{
  eval_played_number_card, eval_played_card, finish_play, try_play_card, check_if_player_has_won,
}
use uknow.Table.Decide.{
  eval_pull, eval_pass, eval_play, choose_color_next, color_next_state, eval_choose_color,
  challenge_succeeds, challenge_fails, judge_challenge, eligible_cards, eval_do_challenge,
  eval_dont_challenge, eval_kind, eval_player_decision, eval_player_decisions,
}
use uknow.Table.Stable
use uknow.Table.Stable.{Stable, is_playing}

module _ {s : Sorter} {P : Table → Type 0} (stable : Stable s P) where
  open stable use {state, winner, pull, drop}

  eval_played_action_card-keeps :
      (name : String) (c : Card) → Keeps P (eval_played_action_card s name c)
  unfolding eval_played_action_card
  eval_played_action_card-keeps name c =
      search
        (
          keeps_rules,
          Stable.eval_skip_card-keeps stable,
          Stable.eval_draw_two_card-keeps stable,
          Stable.eval_reverse_card-keeps stable,
          Stable.eval_wild_card-keeps stable,
          Stable.eval_wild_draw_four_card-keeps stable,
        )
        depth 12

  eval_played_card-keeps : (name : String) (c : Card) → Keeps P (eval_played_card s name c)
  unfolding eval_played_card eval_played_number_card
  eval_played_card-keeps name c =
      search
        (
          keeps_rules,
          state,
          Stable.set_neighbor-keeps stable,
          Stable.set_required_color-keeps stable,
          stable.number,
          eval_played_action_card-keeps,
        )
        depth 14

  finish_play-keeps : (name : String) (c : Card) → Keeps P (finish_play s name c)
  unfolding finish_play
  finish_play-keeps name c = search (keeps_rules, winner, eval_played_card-keeps) depth 16

  try_play_card-keeps : (name : String) (c : Card) → Keeps P (try_play_card s name c)
  unfolding try_play_card
  try_play_card-keeps name c =
      search (keeps_rules, drop, Stable.check_play-keeps stable, finish_play-keeps) depth 14

  check_if_player_has_won-keeps : (name : String) → Keeps P (check_if_player_has_won name)
  unfolding check_if_player_has_won
  check_if_player_has_won-keeps name = search (keeps_rules, winner) depth 14

  eval_pull-keeps : (name : String) (d : PlayerDecision) → Keeps P (eval_pull s name d)
  unfolding eval_pull
  eval_pull-keeps name d = search (keeps_rules, pull, state) depth 14

  eval_pass-keeps : (name : String) (d : PlayerDecision) → Keeps P (eval_pass name d)
  unfolding eval_pass
  eval_pass-keeps name d = search (keeps_rules, Stable.set_neighbor-keeps stable) depth 14

  eval_play-keeps : (name : String) (d : PlayerDecision) → Keeps P (eval_play s name d)
  unfolding eval_play
  eval_play-keeps name d =
      search (keeps_rules, try_play_card-keeps, check_if_player_has_won-keeps) depth 14

  color_next_playing : (b : Bool) → is_playing (color_next_state b) ≡ true
  color_next_playing true = refl
  color_next_playing false = refl

  choose_color_next-keeps : (name : String) → Keeps P (choose_color_next name)
  unfolding choose_color_next
  choose_color_next-keeps name =
      search (keeps_rules, state, Stable.set_neighbor-keeps stable, color_next_playing) depth 14

  eval_choose_color-keeps :
      (name : String) (d : PlayerDecision) → Keeps P (eval_choose_color name d)
  unfolding eval_choose_color
  eval_choose_color-keeps name d =
      search (keeps_rules, Stable.set_required_color-keeps stable, choose_color_next-keeps) depth 14

  challenge_succeeds-keeps : (name : String) → Keeps P (challenge_succeeds s name)
  unfolding challenge_succeeds
  challenge_succeeds-keeps name = search (keeps_rules, Stable.pull_cards-keeps stable) depth 12

  challenge_fails-keeps : (name : String) → Keeps P (challenge_fails s name)
  unfolding challenge_fails
  challenge_fails-keeps name = search (keeps_rules, Stable.pull_cards-keeps stable) depth 12

  judge_challenge-keeps : (name : String) → Keeps P (judge_challenge s name)
  unfolding judge_challenge
  judge_challenge-keeps name = record {
    at = λ g h.
        elim (is_empty (eligible_cards g.table))
          as (λ b.
            P (if b then challenge_fails s name g else challenge_succeeds s name g).1.table) [
              | true ↦ (challenge_fails-keeps name).at g h
              | false ↦ (challenge_succeeds-keeps name).at g h
            ];
  }

  eval_do_challenge-keeps :
      (name : String) (d : PlayerDecision) → Keeps P (eval_do_challenge s name d)
  unfolding eval_do_challenge
  eval_do_challenge-keeps name d =
      search (keeps_rules, Stable.set_neighbor-keeps stable, judge_challenge-keeps) depth 14

  eval_dont_challenge-keeps :
      (name : String) (d : PlayerDecision) → Keeps P (eval_dont_challenge s name d)
  unfolding eval_dont_challenge
  eval_dont_challenge-keeps name d =
      search (keeps_rules, Stable.set_neighbor-keeps stable, Stable.pull_cards-keeps stable) depth
        14

  eval_kind-keeps :
      (name : String) (d : PlayerDecision) (k : PlayerDecisionKind) → Keeps P (eval_kind s name d k)
  eval_kind-keeps name d pull_from_deck = eval_pull-keeps name d
  eval_kind-keeps name d play_hand_card = eval_play-keeps name d
  eval_kind-keeps name d pass = eval_pass-keeps name d
  eval_kind-keeps name d wild_card_choose_color = eval_choose_color-keeps name d
  eval_kind-keeps name d do_challenge = eval_do_challenge-keeps name d
  eval_kind-keeps name d dont_challenge = eval_dont_challenge-keeps name d
  eval_kind-keeps name d (unknown_kind k) = search keeps_rules

  pub eval_player_decision-keeps :
      (name : String) (d : PlayerDecision) → Keeps P (eval_player_decision s name d)
  unfolding eval_player_decision
  eval_player_decision-keeps name d = eval_kind-keeps name d d.kind

  pub eval_player_decisions-keeps :
      (name : String) (ds : List PlayerDecision) → Keeps P (eval_player_decisions s name ds)
  unfolding eval_player_decisions
  eval_player_decisions-keeps name [] = search keeps_rules
  eval_player_decisions-keeps name (d ∷ ds) =
      Keeps-bind _ _ (eval_player_decision-keeps name d) (λ _. eval_player_decisions-keeps name ds)
