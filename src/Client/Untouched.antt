-- ===== src/Client/Untouched.antt =====
-- player_client.go: what the commands of a turn leave of the client.
use uknow.Prelude.{◌≡◌, refl, ◌∙◌, List, [], ◌∷◌, ◌++◌, some, Outcome, ok, err, panic, arith}
use uknow.Deck.{Sorter}
use uknow.Table.{PlayerDecision}
use uknow.Repl.{ReplCommand}
use uknow.Client.{Client, ClientError}
use uknow.Client.Asking.{
  run_commands, run_decision, decide, decision_for, eval_repl_command_on_table,
}
use uknow.Client.Replay.Turns.{go_on}

-- What a command leaves of the client, apart from its table and what it tells the user interface.
pub record Untouched (c c' : Client) : Type 0 where
  pub posted : c'.posted ≡ c.posted
  pub address : c'.admin_addr ≡ c.admin_addr
  pub state : c'.client_state ≡ c.client_state

run_decision-Untouched :
    (s : Sorter) (r : Outcome ClientError PlayerDecision) (c : Client)
    → Untouched c (run_decision s r c).1
unfolding decide
run_decision-Untouched s (ok d) c = record { posted = refl; address = refl; state = refl }
run_decision-Untouched s (err e) c = record { posted = refl; address = refl; state = refl }
run_decision-Untouched s panic c = record { posted = refl; address = refl; state = refl }

Untouched-trans : {a b c : Client} → Untouched a b → Untouched b c → Untouched a c
Untouched-trans u v = record {
  posted = v.posted ∙ u.posted;
  address = v.address ∙ u.address;
  state = v.state ∙ u.state;
}

Untouched-go_on :
    (s : Sorter) (commands : List ReplCommand) (ds ds' : List PlayerDecision) (c c₁ c' : Client)
    (r : Outcome ClientError PlayerDecision)
    → Untouched c c₁
    → ((es : List PlayerDecision) (cs : Client)
        → run_commands s commands es cs ≡ some (ds', c')
        → Untouched cs c')
    → go_on s commands ds r c₁ ≡ some (ds', c')
    → Untouched c c'
Untouched-go_on s commands ds ds' c c₁ c' (ok d) u more e =
    let v = more (ds ++ d ∷ []) _ e in
    Untouched-trans {b = c₁} u (record { posted = v.posted; address = v.address; state = v.state })
Untouched-go_on s commands ds ds' c c₁ c' (err x) u more e =
    let v = more ds _ e in
    Untouched-trans {b = c₁} u (record { posted = v.posted; address = v.address; state = v.state })
Untouched-go_on s commands ds ds' c c₁ c' panic u more e = ground (arith, e)

pub run_commands-Untouched :
    (s : Sorter) (commands : List ReplCommand) (ds ds' : List PlayerDecision) (c c' : Client)
    → run_commands s commands ds c ≡ some (ds', c')
    → Untouched c c'
unfolding run_commands eval_repl_command_on_table
run_commands-Untouched s [] ds ds' c c' e = ground (arith, e)
run_commands-Untouched s (command ∷ commands) ds ds' c c' e =
    let r = decision_for c.table command command.kind in
    Untouched-go_on s commands ds ds' c (run_decision s r c).1 c' (run_decision s r c).0
      (run_decision-Untouched s r c) (λ es cs. run_commands-Untouched s commands es ds' cs c') e
