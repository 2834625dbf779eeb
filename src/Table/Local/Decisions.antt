-- ===== src/Table/Local/Decisions.antt =====
-- The decisions of uknow.go, each with all that it calls, do the same to every copy of a table.
use uknow.Prelude.{◌≡◌, refl, Bool, ℕ, zero, suc, arith, String, List, [], ◌∷◌}
use uknow.Card.{Card, Color}
use uknow.Deck.{Sorter}
use uknow.Table.{
  TableState, PlayerDecision, PlayerDecisionKind, pull_from_deck, play_hand_card, pass,
  wild_card_choose_color, do_challenge, dont_challenge, unknown_kind,
}
use uknow.Table.Game.{Game}
use uknow.Table.Eval.{
  pull_card, pull_cards, set_required_color, set_neighbor_as_next_player, set_next_player_skip_one,
  eval_skip_card, eval_draw_two_card, eval_reverse_card, eval_wild_card, eval_wild_draw_four_card,
  eval_played_action_card,
}
use uknow.Table.Play.{
  check_play, drop_card, eval_played_number_card, eval_played_card, finish_play, try_play_card,
  check_if_player_has_won, need_more_user_decision_to_finish_turn,
}
use uknow.Table.Decide.{
  eval_pull, eval_pass, eval_play, choose_color_next, eval_choose_color, challenge_succeeds,
  challenge_fails, judge_challenge, eval_do_challenge, eval_dont_challenge, eval_kind,
  eval_player_decision, eval_player_decisions,
}
use uknow.Table.Local.{Agrees, owned_by, Agrees-copy, Agrees-bind, agrees_rules}

module _ (s : Sorter) {owner : String} where
  pull_card-Agrees :
      (target : String) (b b' : Bool) → Agrees owner (pull_card s target b) (pull_card s target b')
  unfolding pull_card
  pull_card-Agrees target b b' = Agrees-copy _ _ λ g es. ground arith

  pull_cards-Agrees :
      (k : ℕ) (target : String) (b b' : Bool)
      → Agrees owner (pull_cards s k target b) (pull_cards s k target b')
  unfolding pull_cards
  pull_cards-Agrees zero target b b' = search agrees_rules
  pull_cards-Agrees (suc k) target b b' =
      Agrees-bind _ _ _ _ (pull_card-Agrees target b b') (λ _. pull_cards-Agrees k target b b')

module _ {owner : String} where
  set_required_color-Agrees :
      (c : Color) → Agrees owner (set_required_color c) (set_required_color c)
  unfolding set_required_color
  set_required_color-Agrees c = search agrees_rules depth 10

  set_neighbor-Agrees :
      (name : String) (st : TableState)
      → Agrees owner (set_neighbor_as_next_player name st) (set_neighbor_as_next_player name st)
  unfolding set_neighbor_as_next_player
  set_neighbor-Agrees name st = search agrees_rules depth 14

  skip_one-Agrees :
      (name : String) → Agrees owner (set_next_player_skip_one name) (set_next_player_skip_one name)
  unfolding set_next_player_skip_one
  skip_one-Agrees name = search agrees_rules depth 20

  eval_skip_card-Agrees :
      (name : String) (c : Card) → Agrees owner (eval_skip_card name c) (eval_skip_card name c)
  unfolding eval_skip_card
  eval_skip_card-Agrees name c =
      search (agrees_rules, skip_one-Agrees, set_required_color-Agrees) depth 20

  eval_reverse_card-Agrees :
      (name : String) (c : Card)
      → Agrees owner (eval_reverse_card name c) (eval_reverse_card name c)
  unfolding eval_reverse_card
  eval_reverse_card-Agrees name c = search (agrees_rules, set_required_color-Agrees) depth 30

  eval_wild_card-Agrees : (name : String) → Agrees owner (eval_wild_card name) (eval_wild_card name)
  unfolding eval_wild_card
  eval_wild_card-Agrees name = search agrees_rules depth 10

  eval_wild_draw_four_card-Agrees :
      (name : String) → Agrees owner (eval_wild_draw_four_card name) (eval_wild_draw_four_card name)
  unfolding eval_wild_draw_four_card
  eval_wild_draw_four_card-Agrees name = search agrees_rules depth 14

  eval_played_number_card-Agrees :
      (name : String) (c : Card)
      → Agrees owner (eval_played_number_card name c) (eval_played_number_card name c)
  unfolding eval_played_number_card
  eval_played_number_card-Agrees name c =
      search (agrees_rules, set_neighbor-Agrees, set_required_color-Agrees) depth 14

  check_play-Agrees :
      (name : String) (c : Card) → Agrees owner (check_play name c) (check_play name c)
  unfolding check_play
  check_play-Agrees name c = search agrees_rules depth 20

  drop_card-Agrees : (name : String) (c : Card) → Agrees owner (drop_card name c) (drop_card name c)
  unfolding drop_card
  drop_card-Agrees name c = Agrees-copy _ _ λ g es. ground arith

  eval_pass-Agrees :
      (name : String) (d : PlayerDecision) → Agrees owner (eval_pass name d) (eval_pass name d)
  unfolding eval_pass
  eval_pass-Agrees name d = search (agrees_rules, set_neighbor-Agrees) depth 16

  choose_color_next-Agrees :
      (name : String) → Agrees owner (choose_color_next name) (choose_color_next name)
  unfolding choose_color_next
  choose_color_next-Agrees name = search (agrees_rules, set_neighbor-Agrees) depth 16

  eval_choose_color-Agrees :
      (name : String) (d : PlayerDecision)
      → Agrees owner (eval_choose_color name d) (eval_choose_color name d)
  unfolding eval_choose_color
  eval_choose_color-Agrees name d =
      search (agrees_rules, set_required_color-Agrees, choose_color_next-Agrees) depth 16

  check_if_player_has_won-Agrees :
      (name : String) → Agrees owner (check_if_player_has_won name) (check_if_player_has_won name)
  unfolding check_if_player_has_won
  check_if_player_has_won-Agrees name = search agrees_rules depth 16

module _ (s : Sorter) {owner : String} where
  eval_draw_two_card-Agrees :
      (name : String) (c : Card)
      → Agrees owner (eval_draw_two_card s name c) (eval_draw_two_card s name c)
  unfolding eval_draw_two_card
  eval_draw_two_card-Agrees name c =
      search (agrees_rules, skip_one-Agrees, set_required_color-Agrees, pull_cards-Agrees) depth 20

  eval_played_action_card-Agrees :
      (name : String) (c : Card)
      → Agrees owner (eval_played_action_card s name c) (eval_played_action_card s name c)
  unfolding eval_played_action_card
  eval_played_action_card-Agrees name c =
      search
        (
          agrees_rules, eval_skip_card-Agrees, eval_draw_two_card-Agrees, eval_reverse_card-Agrees,
          eval_wild_card-Agrees, eval_wild_draw_four_card-Agrees,
        )
        depth 14

  eval_played_card-Agrees :
      (name : String) (c : Card)
      → Agrees owner (eval_played_card s name c) (eval_played_card s name c)
  unfolding eval_played_card
  eval_played_card-Agrees name c =
      search (agrees_rules, eval_played_action_card-Agrees, eval_played_number_card-Agrees) depth 6

  finish_play-Agrees :
      (name : String) (c : Card) → Agrees owner (finish_play s name c) (finish_play s name c)
  unfolding finish_play need_more_user_decision_to_finish_turn
  finish_play-Agrees name c = search (agrees_rules, eval_played_card-Agrees) depth 20

  try_play_card-Agrees :
      (name : String) (c : Card) → Agrees owner (try_play_card s name c) (try_play_card s name c)
  unfolding try_play_card
  try_play_card-Agrees name c =
      search (agrees_rules, check_play-Agrees, drop_card-Agrees, finish_play-Agrees) depth 16

  eval_pull-Agrees :
      (name : String) (d : PlayerDecision) → Agrees owner (eval_pull s name d) (eval_pull s name d)
  unfolding eval_pull
  eval_pull-Agrees name d = search (agrees_rules, pull_card-Agrees) depth 18

  eval_play-Agrees :
      (name : String) (d : PlayerDecision) → Agrees owner (eval_play s name d) (eval_play s name d)
  unfolding eval_play
  eval_play-Agrees name d =
      search (agrees_rules, try_play_card-Agrees, check_if_player_has_won-Agrees) depth 16

  challenge_succeeds-Agrees :
      (name : String) → Agrees owner (challenge_succeeds s name) (challenge_succeeds s name)
  unfolding challenge_succeeds
  challenge_succeeds-Agrees name = search (agrees_rules, pull_cards-Agrees) depth 16

  challenge_fails-Agrees :
      (name : String) → Agrees owner (challenge_fails s name) (challenge_fails s name)
  unfolding challenge_fails
  challenge_fails-Agrees name = search (agrees_rules, pull_cards-Agrees) depth 16

  judge_challenge-Agrees :
      (name : String) → Agrees owner (judge_challenge s name) (judge_challenge s name)
  unfolding judge_challenge
  judge_challenge-Agrees name = Agrees-copy _ _ λ g es.
      let h : Game = record { table = owned_by owner g.table; sent = es } in
      ground (
        arith,
        (challenge_fails-Agrees name).at g h refl,
        (challenge_succeeds-Agrees name).at g h refl,
      )

  eval_do_challenge-Agrees :
      (name : String) (d : PlayerDecision)
      → Agrees owner (eval_do_challenge s name d) (eval_do_challenge s name d)
  unfolding eval_do_challenge
  eval_do_challenge-Agrees name d =
      search (agrees_rules, set_neighbor-Agrees, judge_challenge-Agrees) depth 16

  eval_dont_challenge-Agrees :
      (name : String) (d : PlayerDecision)
      → Agrees owner (eval_dont_challenge s name d) (eval_dont_challenge s name d)
  unfolding eval_dont_challenge
  eval_dont_challenge-Agrees name d =
      search (agrees_rules, set_neighbor-Agrees, pull_cards-Agrees) depth 16

  eval_kind-Agrees :
      (name : String) (d : PlayerDecision) (k : PlayerDecisionKind)
      → Agrees owner (eval_kind s name d k) (eval_kind s name d k)
  eval_kind-Agrees name d pull_from_deck = eval_pull-Agrees name d
  eval_kind-Agrees name d play_hand_card = eval_play-Agrees name d
  eval_kind-Agrees name d pass = eval_pass-Agrees name d
  eval_kind-Agrees name d wild_card_choose_color = eval_choose_color-Agrees name d
  eval_kind-Agrees name d do_challenge = eval_do_challenge-Agrees name d
  eval_kind-Agrees name d dont_challenge = eval_dont_challenge-Agrees name d
  eval_kind-Agrees name d (unknown_kind k) = search agrees_rules

  pub eval_player_decision-Agrees :
      (name : String) (d : PlayerDecision)
      → Agrees owner (eval_player_decision s name d) (eval_player_decision s name d)
  unfolding eval_player_decision
  eval_player_decision-Agrees name d = eval_kind-Agrees name d d.kind

  pub eval_player_decisions-Agrees :
      (name : String) (ds : List PlayerDecision)
      → Agrees owner (eval_player_decisions s name ds) (eval_player_decisions s name ds)
  unfolding eval_player_decisions
  eval_player_decisions-Agrees name [] = search agrees_rules
  eval_player_decisions-Agrees name (d ∷ ds) =
      Agrees-bind _ _ _ _ (eval_player_decision-Agrees name d)
        (λ _. eval_player_decisions-Agrees name ds)

  -- The same decisions on two copies of a table that differ in the name of their owner: both copies
  -- end in the same way, with the same error or none, and differ only in that name again.
  pub eval_player_decisions-owned_by :
      (name : String) (ds : List PlayerDecision) (g h : Game)
      → h.table ≡ owned_by owner g.table
      → ((eval_player_decisions s name ds h).0 ≡ (eval_player_decisions s name ds g).0)
        × ((eval_player_decisions s name ds h).1.table
            ≡ owned_by owner (eval_player_decisions s name ds g).1.table)
  eval_player_decisions-owned_by name ds g h e = (eval_player_decisions-Agrees name ds).at g h e
