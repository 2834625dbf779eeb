-- ===== src/Screen.antt =====
-- player_client/player_client_ui.go: what the user interface keeps and shows. The widgets are the texts
-- and numbers in them; their places, styles and the redrawing are left out. A character of the prompt
-- stands for one byte.
pub mod Log
pub mod Hands
pub mod Inputs
use Prim.Native.String.{[] as no_chars, ◌∷◌ as char_cons, ◌++◌ as concat}
use uknow.Prelude.{
  ℕ, zero, suc, ◌+◌, ◌-◌, Bool, true, false, String, List, [], ◌∷◌, ◌++◌, Option, none, some,
  Outcome, ok, err, panic, ltb, ◌==◌, if◌then◌else◌, length, drop, replicate, join, split_lines,
}
use uknow.Prelude.Int.{ℤ, pos}
use uknow.Card.{Color}
use uknow.Deck.{Deck}
use uknow.Repl.{ReplCommand}
use uknow.History.{HistoryRing, HistoryPos, new_history_ring, reset}

pub data ClientUiState : Type 0 where
  only_allow_inspect_repl_commands allow_player_decision_repl_commands : ClientUiState
  we_have_a_winner : ClientUiState

abbrev pub is_allowing : ClientUiState → Bool
is_allowing allow_player_decision_repl_commands = true
is_allowing _ = false

abbrev pub is_won : ClientUiState → Bool
is_won we_have_a_winner = true
is_won _ = false

-- A call that locks a mutex that its caller has.
pub data Deadlock : Type 0 where
  deadlock : Deadlock

-- `hand_counts` is the chart: `Labels` with `Data`.
pub record ClientUi : Type 0 where
  pub ui_state : ClientUiState
  pub draw_deck_percent : ℤ
  pub draw_deck_color : Option Color
  pub hand_counts : List (String × ℤ)
  pub discard_pile : Deck
  pub player_hand : Deck
  pub discard_pile_cells : List String
  pub self_hand_text : String
  pub event_log_lines : List String
  pub event_log_text : String
  pub command_string_being_typed : String
  pub command_prompt_text : String
  pub command_prompt_title : String
  pub command_history : HistoryRing
  pub command_history_pos : HistoryPos
  pub decision_commands : List ReplCommand
  pub general_commands : List ReplCommand

abbrev pub max_lines_in_event_log : ℕ
max_lines_in_event_log = 50

abbrev pub num_cards_to_show_in_pile : ℕ
num_cards_to_show_in_pile = 12

abbrev pub default_command_prompt_cell_title : String
default_command_prompt_cell_title = "Not your turn (only info commands allowed)"

-- ` %s_`
abbrev prompt_text : String → String
prompt_text s = join (" " ∷ s ∷ "_" ∷ [])

-- `Init` and `initWidgetObjects`.
unfoldable pub init_ui : ClientUi
init_ui = record {
  ui_state = only_allow_inspect_repl_commands;
  draw_deck_percent = pos 100;
  draw_deck_color = none;
  hand_counts = [];
  discard_pile = [];
  player_hand = [];
  discard_pile_cells = replicate num_cards_to_show_in_pile "_";
  self_hand_text = "";
  event_log_lines = [];
  event_log_text = "";
  command_string_being_typed = "";
  command_prompt_text = prompt_text "";
  command_prompt_title = default_command_prompt_cell_title;
  command_history = new_history_ring 4;
  command_history_pos = reset;
  decision_commands = [];
  general_commands = [];
}

-- The lines, the newest one first, each with its end.
abbrev pub newest_first : List String → String
newest_first [] = ""
newest_first (line ∷ lines) = concat (newest_first lines) (concat line "\n")

unfoldable pub append_event_log_no_lock : String → ClientUi → ClientUi
append_event_log_no_lock s u =
    let lines = u.event_log_lines ++ split_lines "" s in
    let l = length lines in
    record u {
      event_log_text = newest_first (drop (l - max_lines_in_event_log) lines);
      event_log_lines =
          if ltb max_lines_in_event_log l then drop (l - max_lines_in_event_log) lines else lines;
    }

unfoldable pub append_command_prompt : String → ClientUi → ClientUi
append_command_prompt s u =
    let typed = concat u.command_string_being_typed s in
    record u { command_string_being_typed = typed; command_prompt_text = prompt_text typed }

-- `s[0 : n-1]`, and the empty text for the empty one.
abbrev drop_last : String → String
drop_last no_chars = ""
drop_last (char_cons c no_chars) = ""
drop_last (char_cons c (char_cons d s)) = char_cons c (drop_last (char_cons d s))

unfoldable pub backspace_command_prompt : ClientUi → ClientUi
backspace_command_prompt u =
    let typed = drop_last u.command_string_being_typed in
    record u { command_string_being_typed = typed; command_prompt_text = prompt_text typed }

unfoldable pub reset_command_prompt : String → ClientUi → ClientUi
reset_command_prompt text u = record u {
  command_string_being_typed = text;
  command_prompt_text = prompt_text text;
}
