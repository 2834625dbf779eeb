-- ===== src/Table.antt =====
-- uknow.go: the table of a game and the operations on it that neither draw nor play a card.
-- The logger is left out: it has no effect on the game.
pub mod Game
pub mod Rules
pub mod Seats
pub mod Eval
pub mod Play
pub mod Decide
pub mod Stable
pub mod Local
pub mod Failures
pub mod Repeating
pub mod Cards
pub mod Direction
pub mod Turns
pub mod Phases
pub mod Invariants
pub mod Draws
pub mod Challenge
pub mod Refusals
pub mod Deal
pub mod Seating
pub mod Rearranging
pub mod Printing
use uknow.Prelude.{
  ℕ, zero, suc, ◌+◌, ◌-◌, Bool, true, false, String, List, [], ◌∷◌, ◌++◌, Option, none, some,
  Outcome, ok, err, panic, StringMap, lookup, insert, lookup_or, str_eq, if◌then◌else◌, length,
  get_elem?, ◌==◌, ◌>>=◌,
}
use uknow.Prelude.Int.{ℤ, pos, negsuc, ◌+ℤ◌, ◌*ℤ◌, ◌%ℤ◌, neg, is_negative}
use uknow.Card.{Card, Color, Number, color_wild}
use uknow.Deck.{Deck, Sorter, new_full_deck, new_empty_deck}

pub data TableState : Type 0 where
  start_of_turn awaiting_drop_or_pass awaiting_wild_card_color_decision : TableState
  awaiting_wild_draw4_card_color_decision awaiting_wild_draw4_challenge_decision : TableState
  have_winner : TableState

abbrev pub state_eq : TableState → TableState → Bool
state_eq start_of_turn start_of_turn = true
state_eq awaiting_drop_or_pass awaiting_drop_or_pass = true
state_eq awaiting_wild_card_color_decision awaiting_wild_card_color_decision = true
state_eq awaiting_wild_draw4_card_color_decision awaiting_wild_draw4_card_color_decision = true
state_eq awaiting_wild_draw4_challenge_decision awaiting_wild_draw4_challenge_decision = true
state_eq have_winner have_winner = true
state_eq _ _ = false

unfoldable pub eligible_commands_at_state : TableState → String
eligible_commands_at_state start_of_turn = "play a card or pull from deck"
eligible_commands_at_state awaiting_drop_or_pass = "play a card or pass"
eligible_commands_at_state awaiting_wild_card_color_decision = "wild_color <color>"
eligible_commands_at_state awaiting_wild_draw4_card_color_decision = "wild_color <color>"
eligible_commands_at_state awaiting_wild_draw4_challenge_decision = "challenge or no_challenge"
eligible_commands_at_state have_winner = "unknown turnState"

pub record Table : Type 0 where
  pub draw_deck : Deck
  pub discarded_pile : Deck
  pub index_of_player : StringMap ℕ
  pub hand_of_player : StringMap Deck
  pub player_names : List String
  pub local_player_name : String
  pub shuffler_name : String
  pub player_of_next_turn : String
  pub player_of_last_turn : String
  pub direction : ℤ
  pub turns_completed : ℤ
  pub table_state : TableState
  pub is_shuffled : Bool
  pub required_color_of_current_turn : Color
  pub required_color_of_last_turn : Color
  pub required_number_of_current_turn : Number
  pub required_number_of_last_turn : Number
  pub required_number_before_wild4 : Number
  pub winner_player_name : String

-- A value other than the six named ones falls through the `switch` of `EvalPlayerDecision`.
pub data PlayerDecisionKind : Type 0 where
  pull_from_deck play_hand_card pass : PlayerDecisionKind
  wild_card_choose_color do_challenge dont_challenge : PlayerDecisionKind
  unknown_kind : ℤ → PlayerDecisionKind

pub record PlayerDecision : Type 0 where
  pub kind : PlayerDecisionKind
  pub result_card : Card
  pub wild_card_chosen_color : Color

-- The `Err…` variables, and the reasons made with `fmt.Errorf`.
pub data Reason : Type 0 where
  err_card_not_in_hand err_already_drew_card err_pass_without_draw_or_drop : Reason
  err_draw_deck_is_empty err_invalid_decision err_unexpected_decision : Reason
  err_unknown_player : String → Reason
  err_should_not_happen : String → Reason
  existing_player : String → Reason
  illegal_play : Card → Color → Number → Reason

-- An error as it is, or wrapped in an `EvalDecisionError`.
pub data TableError : Type 0 where
  bare : Reason → TableError
  eval_decision : PlayerDecision → Reason → TableError

unfoldable pub create_new_table : Sorter → Table
create_new_table s = record {
  draw_deck = new_full_deck s;
  discarded_pile = new_empty_deck;
  index_of_player = [];
  hand_of_player = [];
  player_names = [];
  local_player_name = "";
  shuffler_name = "";
  player_of_next_turn = "";
  player_of_last_turn = "";
  direction = pos 1;
  turns_completed = pos 0;
  table_state = start_of_turn;
  is_shuffled = false;
  required_color_of_current_turn = color_wild;
  required_color_of_last_turn = color_wild;
  required_number_of_current_turn = 0;
  required_number_of_last_turn = 0;
  required_number_before_wild4 = 0;
  winner_player_name = "";
}

unfoldable pub new_admin_table : Sorter → Table
unfolding create_new_table
new_admin_table s = create_new_table s

unfoldable pub is_server_table : Table → Bool
is_server_table t = str_eq t.local_player_name ""

-- `t.Set(other)` does not copy every field.
unfoldable pub set_table : Table → Table → Table
set_table t other = record t {
  draw_deck = other.draw_deck;
  discarded_pile = other.discarded_pile;
  index_of_player = other.index_of_player;
  hand_of_player = other.hand_of_player;
  player_names = other.player_names;
  shuffler_name = other.shuffler_name;
  player_of_next_turn = other.player_of_next_turn;
  player_of_last_turn = other.player_of_last_turn;
  direction = other.direction;
  is_shuffled = other.is_shuffled;
  required_color_of_current_turn = other.required_color_of_current_turn;
  required_color_of_last_turn = other.required_color_of_last_turn;
  required_number_of_current_turn = other.required_number_of_current_turn;
  required_number_of_last_turn = other.required_number_of_last_turn;
}

abbrev pub set_player_of_next_turn : String → Table → Table
set_player_of_next_turn next_player t = record t {
  player_of_last_turn = t.player_of_next_turn;
  player_of_next_turn = next_player;
}

abbrev pub set_required_number : Number → Table → Table
set_required_number new_number t = record t {
  required_number_of_last_turn = t.required_number_of_current_turn;
  required_number_of_current_turn = new_number;
}

-- `SetRequiredColor`, less the event.
abbrev pub set_required_color_fields : Color → Table → Table
set_required_color_fields new_color t = record t {
  required_color_of_last_turn = t.required_color_of_current_turn;
  required_color_of_current_turn = new_color;
}

-- `t.HandOfPlayer[name]`, a nil slice if there is none.
abbrev pub hand_of : String → Table → Deck
hand_of name t = lookup_or [] name t.hand_of_player

unfoldable pub contains_name : List String → String → Bool
contains_name [] name = false
contains_name (existing ∷ names) name =
    if str_eq existing name then true else contains_name names name

unfoldable pub add_player : Table → String → Outcome TableError Table
unfolding contains_name
add_player t name =
    if contains_name t.player_names name then err (bare (existing_player name)) else ok added
  where
    added : Table
    added = record t {
      player_names = t.player_names ++ name ∷ [];
      index_of_player = insert name (length t.player_names) t.index_of_player;
      hand_of_player = insert name new_empty_deck t.hand_of_player;
    }

-- The error of `AddPlayer` is dropped by `NewTable`.
unfoldable pub new_table : Sorter → String → Table
unfolding create_new_table add_player
new_table s name =
    let t = record (create_new_table s) { local_player_name = name } in
    elim (add_player t name) [ ok t' ↦ t' | err e ↦ t | panic ↦ t ]
