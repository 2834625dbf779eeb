-- ===== src/Table/Failures.antt =====
-- Which calls of a decision return no error: they end with a value or in a panic.
pub mod Decisions
use uknow.Prelude.{
  ℕ, zero, suc, ◌≤◌, ◌≡◌, refl, sym, ◌≢◌, ◌⊎◌, inl, inr, Bool, true, false, ◌||◌, String, List, [],
  ◌∷◌, Outcome, ok, err, panic, arith, if◌then◌else◌, length,
}
use uknow.Card.{Card, Color}
use uknow.Deck.{Sorter, is_empty}
use uknow.Event.{GameEvent}
use uknow.Table.{
  Table, TableState, TableError, PlayerDecision, PlayerDecisionKind, pull_from_deck, play_hand_card,
  pass, wild_card_choose_color, do_challenge, dont_challenge, unknown_kind,
}
use uknow.Table.Game.{
  Game, M, ◌>>=◌, return, crash, lift, require, when, get_table, modify, send, drop_error,
  wrap_error, run,
}
use uknow.Table.Draws.{pull_cards-enough}
use uknow.Table.Seats.{get_next_player_index, wrap_index, player_at, player_index_from_name}
use uknow.Table.Eval.{
  pull_card, pull_cards, set_required_color, set_state, set_neighbor_as_next_player,
  set_next_player_skip_one, eval_skip_card, eval_draw_two_card, eval_reverse_card, eval_wild_card,
  eval_wild_draw_four_card, eval_played_action_card,
}
use uknow.Table.Play.{
  check_play, drop_card, eval_played_number_card, eval_played_card, finish_play, try_play_card,
  check_if_player_has_won,
}
use uknow.Table.Decide.{
  eval_pull, eval_pass, eval_play, choose_color_next, eval_choose_color, challenge_succeeds,
  challenge_fails, judge_challenge, eligible_cards, eval_do_challenge, eval_dont_challenge,
  eval_kind, eval_player_decision,
}

-- A call that returns no error.
pub record Sure {A : Type 0} (m : M A) : Type 0 where
  pub at : (g : Game) (e : TableError) → (m g).0 ≢ err e

abbrev IsSure : {A : Type 0} → Outcome TableError A → Type 0
IsSure r = (e : TableError) → r ≢ err e

Sure-lift : {A : Type 0} (r : Outcome TableError A) → IsSure r → Sure (lift r)
unfolding lift
Sure-lift r k = record { at = λ g e. k e }

next_index-IsSure : (t : Table) (i step : _) → IsSure (get_next_player_index t i step)
unfolding get_next_player_index wrap_index
next_index-IsSure t i step e = ground arith

player_at-IsSure : (t : Table) (i : _) → IsSure (player_at t i)
unfolding player_at
player_at-IsSure t i e = ground arith

name_index-IsSure : (t : Table) (name : String) → IsSure (player_index_from_name t name)
unfolding player_index_from_name
name_index-IsSure t name e = ground arith

pub Sure-return : {A : Type 0} (a : A) → Sure (return a)
unfolding return
Sure-return a = record { at = λ g e. ground arith }

Sure-crash : {A : Type 0} → Sure (crash {A = A})
unfolding crash
Sure-crash = record { at = λ g e. ground arith }

pub Sure-get_table : Sure get_table
unfolding get_table
Sure-get_table = record { at = λ g e. ground arith }

pub Sure-send : (x : GameEvent) → Sure (send x)
unfolding send
Sure-send x = record { at = λ g e. ground arith }

Sure-modify : (f : Table → Table) → Sure (modify f)
unfolding modify
Sure-modify f = record { at = λ g e. ground arith }

Sure-when : (b : Bool) (m : M (Unit {0})) → Sure m → Sure (when b m)
unfolding when
Sure-when true m k = record { at = λ g e. k.at g e }
Sure-when false m k = record { at = λ g e. ground arith }

Sure-if : {A : Type 0} (b : Bool) (m n : M A) → Sure m → Sure n → Sure (if b then m else n)
Sure-if true m n k k' = k
Sure-if false m n k k' = k'

Sure-drop_error : (m : M (Unit {0})) → Sure (drop_error m)
unfolding drop_error
Sure-drop_error m = record { at = λ g e. ground arith }

Sure-rest :
    {A B : Type 0} (r : Outcome TableError A) (f : A → M B) (g : Game) (e : TableError)
    → IsSure r
    → ((a : A) → Sure (f a))
    → (◌>>=◌ (λ _. (r, g)) f g).0 ≢ err e
unfolding ◌>>=◌
Sure-rest (ok a) f g e k k' = (k' a).at g e
Sure-rest (err x) f g e k k' = absurd (k x refl)
Sure-rest panic f g e k k' = ground arith

pub Sure-bind :
    {A B : Type 0} (m : M A) (f : A → M B) → Sure m → ((a : A) → Sure (f a)) → Sure (m >>= f)
unfolding ◌>>=◌
Sure-bind m f first second = record {
  at = λ g e. Sure-rest (m g).0 f (m g).1 e (first.at g) second;
}

ruleset sure_rules = (
  Sure-return, Sure-crash, Sure-lift, next_index-IsSure, player_at-IsSure, name_index-IsSure,
  Sure-get_table, Sure-send, Sure-modify, Sure-when, Sure-if, Sure-drop_error, Sure-bind,
)

pub set_required_color-Sure : (c : Color) → Sure (set_required_color c)
unfolding set_required_color
set_required_color-Sure c = search sure_rules depth 8

pub set_neighbor-Sure :
    (name : String) (st : TableState) → Sure (set_neighbor_as_next_player name st)
unfolding set_neighbor_as_next_player
set_neighbor-Sure name st = search sure_rules depth 14

skip_one-Sure : (name : String) → Sure (set_next_player_skip_one name)
unfolding set_next_player_skip_one
skip_one-Sure name = search sure_rules depth 18

eval_skip_card-Sure : (name : String) (c : Card) → Sure (eval_skip_card name c)
unfolding eval_skip_card
eval_skip_card-Sure name c = search (sure_rules, skip_one-Sure, set_required_color-Sure) depth 16

eval_draw_two_card-Sure :
    (s : Sorter) (name : String) (c : Card) → Sure (eval_draw_two_card s name c)
unfolding eval_draw_two_card
eval_draw_two_card-Sure s name c =
    search (sure_rules, skip_one-Sure, set_required_color-Sure) depth 18

eval_reverse_card-Sure : (name : String) (c : Card) → Sure (eval_reverse_card name c)
unfolding eval_reverse_card
eval_reverse_card-Sure name c = search (sure_rules, set_required_color-Sure) depth 26

eval_wild_card-Sure : (name : String) → Sure (eval_wild_card name)
unfolding eval_wild_card
eval_wild_card-Sure name = search sure_rules depth 10

eval_wild_draw_four_card-Sure : (name : String) → Sure (eval_wild_draw_four_card name)
unfolding eval_wild_draw_four_card
eval_wild_draw_four_card-Sure name = search sure_rules depth 14

eval_played_card-Sure : (s : Sorter) (name : String) (c : Card) → Sure (eval_played_card s name c)
unfolding eval_played_card eval_played_action_card eval_played_number_card
eval_played_card-Sure s name c =
    search
      (
        sure_rules, set_neighbor-Sure, set_required_color-Sure, eval_skip_card-Sure,
        eval_draw_two_card-Sure, eval_reverse_card-Sure, eval_wild_card-Sure,
        eval_wild_draw_four_card-Sure,
      )
      depth 16

pub finish_play-Sure : (s : Sorter) (name : String) (c : Card) → Sure (finish_play s name c)
unfolding finish_play
finish_play-Sure s name c = search (sure_rules, eval_played_card-Sure) depth 18

pub drop_card-Sure : (name : String) (c : Card) → Sure (drop_card name c)
unfolding drop_card
drop_card-Sure name c = record { at = λ g e. ground arith }

pub check_if_player_has_won-Sure : (name : String) → Sure (check_if_player_has_won name)
unfolding check_if_player_has_won
check_if_player_has_won-Sure name = search sure_rules depth 14

pub choose_color_next-Sure : (name : String) → Sure (choose_color_next name)
unfolding choose_color_next
choose_color_next-Sure name = search (sure_rules, set_neighbor-Sure) depth 14
