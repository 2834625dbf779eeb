-- ===== src/Client/Asking.antt =====
-- player_client.go: `evalReplCommandOnTable` and `askAndRunUserDecisions`. The commands that the user
-- gives in a turn are a list, which ends where the user interface closes its channel.
use uknow.Prelude.{
  ℕ, Bool, true, List, [], ◌∷◌, ◌++◌, Option, none, some, Outcome, ok, err, panic, if◌then◌else◌,
}
use uknow.Card.{Card, Color}
use uknow.Deck.{Sorter}
use uknow.Table.{
  Table, TableError, PlayerDecision, PlayerDecisionKind, pull_from_deck, play_hand_card, pass,
  wild_card_choose_color, do_challenge, dont_challenge, awaiting_wild_draw4_challenge_decision,
}
use uknow.Table.Play.{in_state, need_more_user_decision_to_finish_turn}
use uknow.Table.Decide.{eval_player_decision}
use uknow.Repl.{
  ReplCommand, ReplCommandKind, nil, color_data, address, cmd_drop_card, cmd_draw_card,
  cmd_draw_card_from_pile, cmd_set_wild_card_color, cmd_challenge, cmd_no_challenge, cmd_pass,
}
use uknow.Client.{
  Client, ClientError, Response, table_error, should_not_happen, unimplemented_repl_command,
  in_client_state, post, post_player_decisions, waiting_for_admin_to_choose_player, no_response,
  status_ok,
}

abbrev pub table_outcome {ℓ} : {A : Type ℓ} → Outcome TableError A → Outcome ClientError A
table_outcome (ok a) = ok a
table_outcome (err e) = err (table_error e)
table_outcome panic = panic

-- `c.table.EvalPlayerDecision(c.table.LocalPlayerName, decision, c.GameEventPushChan)`
unfoldable pub decide :
    Sorter → PlayerDecision → Client → Outcome ClientError PlayerDecision × Client
decide s decision c =
    let (r, g) =
      eval_player_decision s c.table.local_player_name decision
        (record { table = c.table; sent = c.game_events }) in
    (table_outcome r, record c { table = g.table; game_events = g.sent })

-- A decision with the fields that are set, and the zero values of the others.
abbrev pub decision_of : PlayerDecisionKind → Card → Color → PlayerDecision
decision_of kind card color = record {
  kind = kind;
  result_card = card;
  wild_card_chosen_color = color;
}

abbrev no_card : Card
no_card = record { number = 0; color = 0 }

-- The branch of the `switch`; `replCommand.Cards[0]` panics without a card.
abbrev pub decision_for : Table → ReplCommand → ReplCommandKind → Outcome ClientError PlayerDecision
decision_for t command cmd_drop_card = elim command.cards [
  | [] ↦ panic
  | c ∷ _ ↦ ok (decision_of play_hand_card c 0)
]
decision_for t command cmd_draw_card = ok (decision_of pull_from_deck no_card 0)
decision_for t command cmd_draw_card_from_pile = ok (decision_of pull_from_deck no_card 0)
decision_for t command cmd_set_wild_card_color = elim command.extra_data [
  | nil ↦ err should_not_happen
  | color_data color ↦ ok (decision_of wild_card_choose_color no_card color)
  | address _ ↦ err should_not_happen
]
decision_for t command cmd_challenge =
    ok (decision_of do_challenge no_card t.required_color_of_current_turn)
decision_for t command cmd_no_challenge =
    ok (decision_of dont_challenge no_card t.required_color_of_current_turn)
decision_for t command cmd_pass = ok (decision_of pass no_card 0)
decision_for t command _ = err unimplemented_repl_command

abbrev pub run_decision :
    Sorter
    → Outcome ClientError PlayerDecision
    → Client
    → Outcome ClientError PlayerDecision × Client
run_decision s (ok decision) c = decide s decision c
run_decision s (err e) c = (err e, c)
run_decision s panic c = (panic, c)

unfoldable pub eval_repl_command_on_table :
    Sorter → ReplCommand → Client → Outcome ClientError PlayerDecision × Client
eval_repl_command_on_table s command c =
    run_decision s (decision_for c.table command command.kind) c

abbrev pub answer : Bool → Option ClientError → Client → Client
answer one_more e c = record c {
  answered = c.answered ++ record { ask_for_one_more_decision = one_more; error = e } ∷ [];
}

-- The loop over the commands, with the decisions so far. `none` is the end of the process.
unfoldable pub run_commands :
    Sorter → List ReplCommand → List PlayerDecision → Client → Option (List PlayerDecision × Client)
run_commands s [] decisions c = some (decisions, c)
run_commands s (command ∷ commands) decisions c =
    let (r, c') = eval_repl_command_on_table s command c in
    elim r [
      | ok decision ↦
          run_commands s commands (decisions ++ decision ∷ [])
            (answer (need_more_user_decision_to_finish_turn c'.table) none c')
      | err e ↦ run_commands s commands decisions (answer true (some e) c')
      | panic ↦ none
    ]

abbrev pub ask : Client → Client
ask c = record c {
  asked =
      c.asked
      ++ record {
        challengeable_player =
            if in_state awaiting_wild_draw4_challenge_decision c.table
            then c.table.player_of_last_turn
            else "";
      }
        ∷ [];
}

-- The state changes only when the server answers with OK.
abbrev after_response : Response → Client → Client
after_response no_response c = c
after_response status_ok c = in_client_state waiting_for_admin_to_choose_player c
after_response _ c = c

abbrev pub send_decisions : ℕ → Response → List PlayerDecision → Client → Client
send_decisions counter response decisions c = after_response response (
    post
      (post_player_decisions (record {
        deciding_player = c.table.local_player_name;
        decisions = decisions;
        decision_event_counter = counter;
      }))
      c)

unfoldable pub ask_and_run_user_decisions :
    Sorter → List ReplCommand → ℕ → Response → Client → Option Client
ask_and_run_user_decisions s commands counter response c =
    elim (run_commands s commands [] (ask c)) [
      | none ↦ none
      | some (decisions, c') ↦ some (send_decisions counter response decisions c')
    ]
