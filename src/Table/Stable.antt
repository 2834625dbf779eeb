-- ===== src/Table/Stable.antt =====
-- A property of the table that the elementary updates keep is kept by every decision.
pub mod Decisions
use uknow.Prelude.{ℕ, zero, suc, ◌≡◌, refl, Bool, true, false, String, List, [], ◌∷◌, if◌then◌else◌}
use uknow.Prelude.Int.{neg}
use uknow.Card.{Card, Color, Number}
use uknow.Deck.{Sorter}
use uknow.Table.{
  Table, TableState, have_winner, set_required_color_fields, set_required_number,
  set_player_of_next_turn,
}
use uknow.Table.Rules.{Keeps, Keeps-bind, keeps_rules}
use uknow.Table.Eval.{
  pull_card, pull_cards, set_required_color, set_state, set_neighbor_as_next_player,
  set_next_player_skip_one, eval_skip_card, eval_draw_two_card, eval_reverse_card, eval_wild_card,
  eval_wild_draw_four_card, eval_played_action_card,
}
use uknow.Table.Play.{check_play, drop_card}

-- Every state but the last.
abbrev pub is_playing : TableState → Bool
is_playing have_winner = false
is_playing _ = true

-- The updates of which the evaluation of a decision is made.
pub record Stable (s : Sorter) (P : Table → Type 0) : Type 0 where
  pub state : (st : TableState) → is_playing st ≡ true → (t : Table) → P t → P (set_state st t)
  pub color : (c : Color) (t : Table) → P t → P (set_required_color_fields c t)
  pub number : (k : Number) (t : Table) → P t → P (set_required_number k t)
  pub before_wild4 :
      (t : Table)
      → P t
      → P (record t { required_number_before_wild4 = t.required_number_of_current_turn })
  pub winner : (name : String) (t : Table) → P t → P (record t { winner_player_name = name })
  pub next : (name : String) (t : Table) → P t → P (set_player_of_next_turn name t)
  pub reverse : (t : Table) → P t → P (record t { direction = neg t.direction })
  pub pull : (target : String) (b : Bool) → Keeps P (pull_card s target b)
  pub drop : (name : String) (c : Card) → Keeps P (drop_card name c)

module _ {s : Sorter} {P : Table → Type 0} (stable : Stable s P) where
  open stable use {state, color, number, before_wild4, winner, next, reverse, pull, drop}

  pub set_required_color-keeps : (new_color : Color) → Keeps P (set_required_color new_color)
  unfolding set_required_color
  set_required_color-keeps new_color = search (keeps_rules, color) depth 8

  pub set_neighbor-keeps :
      (name : String) (st : TableState)
      → is_playing st ≡ true
      → Keeps P (set_neighbor_as_next_player name st)
  unfolding set_neighbor_as_next_player
  set_neighbor-keeps name st e = search (keeps_rules, state, next) depth 12

  pub skip_one-keeps : (name : String) → Keeps P (set_next_player_skip_one name)
  unfolding set_next_player_skip_one
  skip_one-keeps name = search (keeps_rules, next) depth 14

  pub check_play-keeps : (name : String) (c : Card) → Keeps P (check_play name c)
  unfolding check_play
  check_play-keeps name c = search keeps_rules depth 12

  pub pull_cards-keeps : (k : ℕ) (target : String) (b : Bool) → Keeps P (pull_cards s k target b)
  unfolding pull_cards
  pull_cards-keeps zero target b = search keeps_rules
  pull_cards-keeps (suc k) target b =
      Keeps-bind _ _ (pull target b) (λ _. pull_cards-keeps k target b)

  pub eval_skip_card-keeps : (name : String) (c : Card) → Keeps P (eval_skip_card name c)
  unfolding eval_skip_card
  eval_skip_card-keeps name c =
      search (keeps_rules, state, number, skip_one-keeps, set_required_color-keeps) depth 14

  pub eval_draw_two_card-keeps : (name : String) (c : Card) → Keeps P (eval_draw_two_card s name c)
  unfolding eval_draw_two_card
  eval_draw_two_card-keeps name c =
      search
        (keeps_rules, state, number, skip_one-keeps, set_required_color-keeps, pull_cards-keeps)
        depth 16

  pub eval_reverse_card-keeps : (name : String) (c : Card) → Keeps P (eval_reverse_card name c)
  unfolding eval_reverse_card
  eval_reverse_card-keeps name c =
      search (keeps_rules, state, number, next, reverse, set_required_color-keeps) depth 24

  pub eval_wild_card-keeps : (name : String) → Keeps P (eval_wild_card name)
  unfolding eval_wild_card
  eval_wild_card-keeps name = search (keeps_rules, state, number) depth 8

  pub eval_wild_draw_four_card-keeps : (name : String) → Keeps P (eval_wild_draw_four_card name)
  unfolding eval_wild_draw_four_card
  eval_wild_draw_four_card-keeps name = search (keeps_rules, state, number, before_wild4) depth 12
