-- ===== src/Screen/Inputs/Forwarding.antt =====
-- player_client_ui.go and player_client.go: the goroutine that forwards the decisions of the user to
-- the client and waits for its answers, with the loop of the client at the other end.
pub mod Over
use uknow.Prelude.{
  Bool, true, false, String, List, [], ◌∷◌, ◌++◌, Option, none, some, Outcome, ok, err, panic,
  if◌then◌else◌,
}
use uknow.Deck.{Sorter}
use uknow.Table.{PlayerDecision}
use uknow.Table.Play.{need_more_user_decision_to_finish_turn}
use uknow.Repl.{ReplCommand}
use uknow.Client.{Client, ClientError, UiCommandAskUserForDecision}
use uknow.Client.Asking.{eval_repl_command_on_table, answer}
use uknow.Screen.{ClientUi}
use uknow.Screen.Inputs.{handle_decision_result, finish_asking}

-- How far the turn is when the commands are used up: it still goes on, it ended the process, or it is
-- over, with the decisions, and with the commands that were not taken.
pub data TurnResult : Type 0 where
  still_asking : Client → ClientUi → TurnResult
  turn_crashes : TurnResult
  turn_over : List PlayerDecision → Client → ClientUi → List ReplCommand → TurnResult

-- The texts of errors are a parameter. The channel is closed after the first answer that asks for no
-- more decision.
unfoldable pub forward_decisions :
    Sorter
    → (ClientError → String)
    → UiCommandAskUserForDecision
    → List ReplCommand
    → List PlayerDecision
    → Client
    → ClientUi
    → TurnResult
forward_decisions s text_of question [] ds c u = still_asking c u
forward_decisions s text_of question (command ∷ commands) ds c u =
    let (r, c') = eval_repl_command_on_table s command c in
    elim r [
      | ok d ↦ elim (need_more_user_decision_to_finish_turn c'.table) [
        | true ↦
            forward_decisions s text_of question commands (ds ++ d ∷ []) (answer true none c')
              (handle_decision_result none u)
        | false ↦
            turn_over (ds ++ d ∷ []) (answer false none c')
              (finish_asking question (handle_decision_result none u)) commands
      ]
      | err e ↦
          forward_decisions s text_of question commands ds (answer true (some e) c')
            (handle_decision_result (some (text_of e)) u)
      | panic ↦ turn_crashes
    ]
