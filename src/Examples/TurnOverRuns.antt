-- ===== src/Examples/TurnOverRuns.antt =====
-- A turn at the prompt: "bob" draws a card and passes; a further command is not taken.
use uknow.Prelude.{String, List, [], ◌∷◌}
use uknow.Table.{PlayerDecision}
use uknow.Repl.{ReplCommand, new_repl_command, cmd_draw_card, cmd_pass}
use uknow.Client.{Client, ClientError, UiCommandAskUserForDecision}
use uknow.Screen.{ClientUi, init_ui}
use uknow.Screen.Inputs.{handle_ask}
use uknow.Screen.Inputs.Forwarding.{TurnResult, forward_decisions, turn_over}
use uknow.Examples.{insertion}
use uknow.Examples.ClientRuns.{bob}

abbrev passes : ReplCommand
passes = new_repl_command cmd_pass "bob"

abbrev typed_commands : List ReplCommand
typed_commands = new_repl_command cmd_draw_card "bob" ∷ passes ∷ passes ∷ []

abbrev your_turn : UiCommandAskUserForDecision
your_turn = record { challengeable_player = "" }

abbrev asked : ClientUi
asked = (handle_ask your_turn init_ui).1

abbrev no_text : ClientError → String
no_text e = ""

abbrev the_turn : TurnResult
the_turn = forward_decisions insertion no_text your_turn typed_commands [] bob asked

abbrev made : TurnResult → List PlayerDecision
made (turn_over ds c u left) = ds
made _ = []

abbrev client_after : TurnResult → Client
client_after (turn_over ds c u left) = c
client_after _ = bob

abbrev screen_after : TurnResult → ClientUi
screen_after (turn_over ds c u left) = u
screen_after _ = asked
