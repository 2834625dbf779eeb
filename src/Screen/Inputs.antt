-- ===== src/Screen/Inputs.antt =====
-- player_client_ui.go: what the user interface does with keys, questions, answers, game events and log
-- messages. The scanner of the words of a command, the texts of errors and of kinds of commands are
-- parameters. A channel takes what is sent to it. How long a colored border lasts is left out.
pub mod Winner
pub mod Forwarding
use uknow.Prelude.{
  ℕ, Bool, true, false, not, ◌&&◌, String, List, [], ◌∷◌, ◌++◌, Option, none, some, Outcome, ok,
  err, panic, ◌>>=◌, ltb, leb, str_eq, if◌then◌else◌, join, length,
}
use uknow.Prelude.Int.{pos}
use uknow.Card.{Color}
use uknow.Deck.{Sorter}
use uknow.Event.{
  GameEvent, from_local_client, card_transfer, skip_card_action, draw_two_card_action,
  reverse_card_action, awaiting_wild_card_color_decision, challenger_success, challenger_failed,
  awaiting_play_or_pass, player_passed_turn, player_has_won, required_color_updated,
}
use uknow.Event.Messages.{awaiting_color_message, won_message}
use uknow.Table.{Table}
use uknow.Repl.{
  ReplCommand, ReplCommandKind, Token, ParseError, new_repl_command, is_user_decision_command,
  cmd_quit,
}
use uknow.Repl.Commands.{parse_command_from_input}
use uknow.History.{HistoryPos, push_reset, get_older, get_newer}
use uknow.Client.{AskUserForDecisionResult, UiCommandAskUserForDecision}
use uknow.Screen.{
  ClientUi, ClientUiState, Deadlock, is_allowing, is_won, append_event_log_no_lock,
  append_command_prompt, backspace_command_prompt, reset_command_prompt,
  only_allow_inspect_repl_commands, allow_player_decision_repl_commands, we_have_a_winner,
  default_command_prompt_cell_title,
}
use uknow.Screen.Hands.{handle_card_transfer_event, init_table_elements}

-- What the code takes from elsewhere.
pub record Words : Type 0 where
  pub tokens_of : String → List Token
  pub parse_error_text : ParseError → String
  pub kind_text : ReplCommandKind → String

-- The command goes to the history, and the prompt is empty again.
unfoldable pub remember_command : ClientUi → Outcome Deadlock ClientUi
unfolding push_reset reset_command_prompt
remember_command u = elim (push_reset u.command_history u.command_string_being_typed) [
  | none ↦ panic
  | some (p, ring) ↦
      ok (reset_command_prompt "" (record u { command_history_pos = p; command_history = ring }))
]

-- What follows the parser: the command goes to the channel of its kind.
abbrev pub send_command : ReplCommand → ClientUi → Outcome Deadlock ClientUi
send_command command u =
    if is_user_decision_command command.kind
    then (if not (is_allowing u.ui_state)
        then ok (append_event_log_no_lock "User decision commands not allowed currently!" u)
        else remember_command
            (record u { decision_commands = u.decision_commands ++ command ∷ [] }))
    else remember_command (record u { general_commands = u.general_commands ++ command ∷ [] })

unfoldable pub handle_command_input : Words → String → ClientUi → Outcome Deadlock ClientUi
unfolding append_event_log_no_lock remember_command
handle_command_input w player_name u =
    elim (parse_command_from_input u.command_string_being_typed
      (w.tokens_of u.command_string_being_typed) player_name) [
        | ok command ↦ send_command command (
            append_event_log_no_lock
              (join ("ClientUI received command: " ∷ w.kind_text command.kind ∷ [])) u)
        | err e ↦ ok (append_event_log_no_lock (w.parse_error_text e) u)
        | panic ↦ panic
      ]

-- The keys of `RunPollInputEvents`. Any other key is typed, unless its name begins with `<` or ends
-- with `>`.
pub data Key : Type 0 where
  ctrl_c enter space backspace up down : Key
  typed : String → Key
  named : String → Key

-- The command from the history that is shown, if there is one.
abbrev show_history : Option (HistoryPos × String × Bool) → ClientUi → Outcome Deadlock ClientUi
show_history none u = panic
show_history (some (p, text, true)) u =
    ok (reset_command_prompt text (record u { command_history_pos = p }))
show_history (some (p, text, false)) u = ok (record u { command_history_pos = p })

unfoldable pub handle_key : Words → String → Key → ClientUi → Outcome Deadlock ClientUi
unfolding handle_command_input append_command_prompt backspace_command_prompt reset_command_prompt
handle_key w player_name ctrl_c u = ok (record u {
  general_commands = u.general_commands ++ new_repl_command cmd_quit player_name ∷ [];
})
handle_key w player_name enter u = handle_command_input w player_name u
handle_key w player_name space u = ok (append_command_prompt " " u)
handle_key w player_name backspace u = ok (backspace_command_prompt u)
handle_key w player_name up u = show_history (get_older u.command_history_pos u.command_history) u
handle_key w player_name down u = show_history (get_newer u.command_history_pos u.command_history) u
handle_key w player_name (typed text) u = ok (append_command_prompt text u)
handle_key w player_name (named text) u = ok u

abbrev set_title : String → ClientUi → ClientUi
set_title title u = record u { command_prompt_title = title }

-- `LocalPlayerCanChallenge`
abbrev can_challenge : UiCommandAskUserForDecision → Bool
can_challenge ask = not (str_eq ask.challengeable_player "")

-- The question of the client. After a win it is dropped, and the channel on which the client waits for
-- the commands is never closed: the truth value tells whether the question is taken up.
unfoldable pub handle_ask : UiCommandAskUserForDecision → ClientUi → Bool × ClientUi
unfolding append_event_log_no_lock
handle_ask ask u =
    if is_won u.ui_state
    then (false, append_event_log_no_lock "Not processing user decision since we have a winner" u)
    else (
      true,
      set_title
          (if can_challenge ask
            then join ("challenge or no_challenge " ∷ ask.challengeable_player ∷ "?" ∷ [])
            else "Your turn now")
          (record u { ui_state = allow_player_decision_repl_commands }),
    )

-- The answer of the client to a decision: the text of its error goes to the log.
unfoldable pub handle_decision_result : Option String → ClientUi → ClientUi
unfolding append_event_log_no_lock
handle_decision_result none u = u
handle_decision_result (some text) u = append_event_log_no_lock text u

-- What follows the loop over the decisions, once the channel is closed.
unfoldable pub finish_asking : UiCommandAskUserForDecision → ClientUi → ClientUi
unfolding append_event_log_no_lock
finish_asking ask u =
    if is_won u.ui_state
    then (if can_challenge ask then set_title default_command_prompt_cell_title u else u)
    else set_title default_command_prompt_cell_title (
        append_event_log_no_lock "Done accepting decision commands in REPL"
          (record u { ui_state = only_allow_inspect_repl_commands }))

-- `setTurnBasedCommandPromptTitle`
unfoldable pub set_turn_based_title : String → ClientUi → ClientUi
set_turn_based_title title u = if is_won u.ui_state then u else set_title title u

-- `uiColorOfCard` panics on a color that is none.
unfoldable pub handle_game_event :
    Sorter → GameEvent → String → ClientUi → Outcome Deadlock ClientUi
unfolding handle_card_transfer_event append_event_log_no_lock set_turn_based_title
handle_game_event s (required_color_updated e) local u =
    if leb e.new_color 4 then ok (record u { draw_deck_color = some e.new_color }) else panic
handle_game_event s (card_transfer e) local u = handle_card_transfer_event s e local u
handle_game_event s (awaiting_wild_card_color_decision e) local u =
    if e.ask_decision_from_local_player
    then ok (append_event_log_no_lock (awaiting_color_message e local) u)
    else ok u
handle_game_event s (challenger_success e) local u =
    if e.is_from_local_client
    then ok (
        set_title
          (join ("CHALLENGE SUCCEEDED, " ∷ e.wild_draw4_player_name ∷ " will draw 4 cards" ∷ [])) u)
    else ok u
handle_game_event s (challenger_failed e) local u =
    if e.is_from_local_client
    then ok (set_title "CHALLENGE FAILED, you will draw 6 cards instead of 4" u)
    else ok u
handle_game_event s (awaiting_play_or_pass e) local u =
    if e.is_from_local_client then ok (set_title "Please play a card or pass" u) else ok u
handle_game_event s (player_passed_turn e) local u =
    if e.is_from_local_client
    then ok (set_turn_based_title default_command_prompt_cell_title u)
    else ok u
handle_game_event s (player_has_won e) local u =
    ok (set_title (won_message e local) (record u { ui_state = we_have_a_winner }))
handle_game_event s (skip_card_action e) local u =
    ok (append_event_log_no_lock "<Unknown game event received>" u)
handle_game_event s (draw_two_card_action e) local u =
    ok (append_event_log_no_lock "<Unknown game event received>" u)
handle_game_event s (reverse_card_action e) local u =
    ok (append_event_log_no_lock "<Unknown game event received>" u)

-- `RunGeneralUICommandConsumer`, for the cards that were served.
unfoldable pub handle_served_cards : Sorter → Table → String → ClientUi → Outcome Deadlock ClientUi
unfolding init_table_elements append_event_log_no_lock
handle_served_cards s t local u =
    init_table_elements s t local
      (record (append_event_log_no_lock "Received UICommandSetServedCards" u) {
        draw_deck_percent = pos (length t.draw_deck);
      })
