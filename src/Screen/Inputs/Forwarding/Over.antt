-- ===== src/Screen/Inputs/Forwarding/Over.antt =====
-- Where a turn of the user is over.
use uknow.Prelude.{
  ◌≡◌, true, false, String, List, [], ◌∷◌, ◌++◌, none, some, Outcome, ok, err, panic,
}
use uknow.Deck.{Sorter}
use uknow.Table.{PlayerDecision}
use uknow.Table.Play.{need_more_user_decision_to_finish_turn}
use uknow.Repl.{ReplCommand}
use uknow.Client.{Client, ClientError, UiCommandAskUserForDecision}
use uknow.Client.Asking.{answer, run_commands}
use uknow.Screen.{ClientUi, is_allowing}
use uknow.Screen.Inputs.{handle_decision_result, finish_asking}
use uknow.Screen.Inputs.Forwarding.{TurnResult, turn_crashes, turn_over, forward_decisions}

-- The commands that were taken, and what the loop of the client makes of them.
pub record Taken (s : Sorter) (commands left : List ReplCommand) (ds ds' : List PlayerDecision)
    (c c' : Client) (u' : ClientUi) : Type 0 where
  pub used : List ReplCommand
  pub split : commands ≡ used ++ left
  pub runs : run_commands s used ds c ≡ some (ds', c')
  pub finished : need_more_user_decision_to_finish_turn c'.table ≡ false
  pub no_decision : is_allowing u'.ui_state ≡ false

module _ (s : Sorter) (text_of : ClientError → String)
    (question : UiCommandAskUserForDecision) where
  abbrev after_one :
      List ReplCommand
      → List PlayerDecision
      → Outcome ClientError PlayerDecision
      → Client
      → ClientUi
      → TurnResult
  after_one commands ds r c u = elim r [
    | ok d ↦ elim (need_more_user_decision_to_finish_turn c.table) [
      | true ↦
          forward_decisions s text_of question commands (ds ++ d ∷ []) (answer true none c)
            (handle_decision_result none u)
      | false ↦
          turn_over (ds ++ d ∷ []) (answer false none c)
            (finish_asking question (handle_decision_result none u)) commands
    ]
    | err e ↦
        forward_decisions s text_of question commands ds (answer true (some e) c)
          (handle_decision_result (some (text_of e)) u)
    | panic ↦ turn_crashes
  ]
