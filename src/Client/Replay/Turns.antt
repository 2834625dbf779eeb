-- ===== src/Client/Replay/Turns.antt =====
-- player_client.go: the decisions of a turn, as they are posted, against the commands of the turn.
use uknow.Prelude.{
  ◌≤◌, ◌≡◌, refl, sym, ap, ◌∙◌, Bool, true, false, List, [], ◌∷◌, ◌++◌, Option, none, some, Outcome,
  ok, err, panic, arith, length,
}
use mathlib.Core.Path.{subst}
use mathlib.Core.List.{append-nil, append_assoc}
use uknow.Deck.{Sorter}
use uknow.Table.{Table, TableError, PlayerDecision}
use uknow.Table.Game.{Game}
use uknow.Table.Play.{need_more_user_decision_to_finish_turn}
use uknow.Table.Decide.{eval_player_decision}
use uknow.Table.Stable.Decisions.{eval_player_decision-keeps}
use uknow.Table.Failures.Decisions.{is_about_challenge, eval_player_decision-undone}
use uknow.Repl.{ReplCommand, ReplCommandKind, cmd_challenge, cmd_no_challenge}
use uknow.Client.{Client, ClientError}
use uknow.Client.Asking.{
  decide, decision_for, eval_repl_command_on_table, run_decision, answer, run_commands,
  table_outcome,
}
use uknow.Client.Replay.{Replays, Replays-nil, Replays-cons, OwnedBy, OwnedBy-Stable}

abbrev is_challenge_command : ReplCommandKind → Bool
is_challenge_command cmd_challenge = true
is_challenge_command cmd_no_challenge = true
is_challenge_command _ = false

decision_for-challenge :
    (t : Table) (command : ReplCommand) (k : ReplCommandKind) (d : PlayerDecision)
    → decision_for t command k ≡ ok d
    → is_about_challenge d.kind ≡ true
    → is_challenge_command k ≡ true
decision_for-challenge t command k d e h = ground (arith, e, h)

abbrev own_evaluation : Sorter → PlayerDecision → Client → Outcome TableError PlayerDecision × Game
own_evaluation s d c =
    eval_player_decision s c.table.local_player_name d
      (record { table = c.table; sent = c.game_events })

-- The decision that the first call evaluates, where its result is a decision.
record Accepted (s : Sorter) (c c' : Client) (d' : PlayerDecision) : Type 0 where
  pub given : PlayerDecision
  pub result : (own_evaluation s given c).0 ≡ ok d'
  pub leaves : (own_evaluation s given c).1.table ≡ c'.table

table_outcome-ok :
    {A : Type 0} (r : Outcome TableError A) (a : A) → table_outcome r ≡ ok a → r ≡ ok a
table_outcome-ok (ok b) a e = ground (arith, e)
table_outcome-ok (err x) a e = ground (arith, e)
table_outcome-ok panic a e = ground (arith, e)

table_outcome-err :
    {A : Type 0} (r : Outcome TableError A) (x : ClientError)
    → table_outcome r ≡ err x
    → (y : TableError) × (r ≡ err y)
table_outcome-err (ok b) x e = ground (arith, e)
table_outcome-err (err y) x e = (y, refl)
table_outcome-err panic x e = ground (arith, e)

run_decision-Accepted :
    (s : Sorter) (r : Outcome ClientError PlayerDecision) (c : Client) (d' : PlayerDecision)
    → (run_decision s r c).0 ≡ ok d'
    → Accepted s c (run_decision s r c).1 d'
unfolding decide
run_decision-Accepted s (ok d) c d' e = record {
  given = d;
  result = table_outcome-ok (own_evaluation s d c).0 d' e;
  leaves = refl;
}
run_decision-Accepted s (err x) c d' e = ground (arith, e)
run_decision-Accepted s panic c d' e = ground (arith, e)

run_decision-undone :
    (s : Sorter) (r : Outcome ClientError PlayerDecision) (c : Client) (x : ClientError)
    → ((d : PlayerDecision)
        → r ≡ ok d
        → is_about_challenge d.kind ≡ true
        → 4 ≤ length c.table.draw_deck)
    → (run_decision s r c).0 ≡ err x
    → (run_decision s r c).1.table ≡ c.table
unfolding decide
run_decision-undone s (ok d) c x paid e =
    let (y, q) = table_outcome-err (own_evaluation s d c).0 x e in
    eval_player_decision-undone s c.table.local_player_name d _ y (paid d refl) q
run_decision-undone s (err y) c x paid e = refl
run_decision-undone s panic c x paid e = refl

-- The client with which the loop goes on after the first command.
abbrev after_command : Outcome ClientError PlayerDecision → Client → Client
after_command (ok d) c = answer (need_more_user_decision_to_finish_turn c.table) none c
after_command (err e) c = answer true (some e) c
after_command panic c = c

-- Whenever a command takes or declines a challenge, the draw deck has four cards at least.
abbrev pub ChallengesPaid : Sorter → List ReplCommand → Client → Type 0
ChallengesPaid s [] c = Unit
ChallengesPaid s (command ∷ commands) c =
    let (r, c') = eval_repl_command_on_table s command c in
    (is_challenge_command command.kind ≡ true → 4 ≤ length c.table.draw_deck)
    × ChallengesPaid s commands (after_command r c')

-- What the decisions do from the table of the first client to that of the second.
pub record Replayed (s : Sorter) (c c' : Client) (made : List PlayerDecision) : Type 0 where
  pub owner : c'.table.local_player_name ≡ c.table.local_player_name
  pub replays : Replays s c.table.local_player_name c.table made c'.table

abbrev Made : Sorter → List PlayerDecision → List PlayerDecision → Client → Client → Type 0
Made s before after c c' =
    (made : List PlayerDecision) × (after ≡ before ++ made) × Replayed s c c' made

Replayed-undone :
    {s : Sorter} {c c₁ c' : Client} {made : List PlayerDecision}
    → c₁.table ≡ c.table
    → Replayed s c₁ c' made
    → Replayed s c c' made
Replayed-undone {s} {c} {c₁} {c'} {made} e r = record {
  owner = r.owner ∙ ap (λ (t : Table). t.local_player_name) e;
  replays = subst (λ (t : Table). Replays s t.local_player_name t made c'.table) e r.replays;
}

Replayed-Accepted :
    {s : Sorter} {c c₁ c' : Client} {d : PlayerDecision} {made : List PlayerDecision}
    → Accepted s c c₁ d
    → Replayed s c₁ c' made
    → Replayed s c c' (d ∷ made)
Replayed-Accepted {s} {c} {c₁} {c'} {d} {made} a r = record {
  owner = r.owner ∙ kept;
  replays =
      Replays-cons s c.table.local_player_name c.table c'.table a.given d made c.game_events
        a.result
        (subst (λ t. Replays s c.table.local_player_name t made c'.table) (sym a.leaves)
          (subst (λ name. Replays s name c₁.table made c'.table) kept r.replays));
}
  where
    kept : c₁.table.local_player_name ≡ c.table.local_player_name
    kept = subst (OwnedBy c.table.local_player_name) a.leaves (
        (eval_player_decision-keeps (OwnedBy-Stable c.table.local_player_name s)
            c.table.local_player_name a.given).at
          (record { table = c.table; sent = c.game_events }) refl)

-- What the loop does after a command with the outcome r, which leaves the client c.
abbrev pub go_on :
    Sorter
    → List ReplCommand
    → List PlayerDecision
    → Outcome ClientError PlayerDecision
    → Client
    → Option (List PlayerDecision × Client)
go_on s commands ds r c = elim r [
  | ok d ↦
      run_commands s commands (ds ++ d ∷ [])
        (answer (need_more_user_decision_to_finish_turn c.table) none c)
  | err e ↦ run_commands s commands ds (answer true (some e) c)
  | panic ↦ none
]

Made-after :
    (s : Sorter) (command : ReplCommand) (commands : List ReplCommand)
    (ds ds' : List PlayerDecision) (c c' : Client) (r : Outcome ClientError PlayerDecision)
    → (eval_repl_command_on_table s command c).0 ≡ r
    → ((cs : Client) (es : List PlayerDecision)
        → ChallengesPaid s commands cs
        → run_commands s commands es cs ≡ some (ds', c')
        → Made s es ds' cs c')
    → (is_challenge_command command.kind ≡ true → 4 ≤ length c.table.draw_deck)
    → ChallengesPaid s commands (after_command r (eval_repl_command_on_table s command c).1)
    → go_on s commands ds r (eval_repl_command_on_table s command c).1 ≡ some (ds', c')
    → Made s ds ds' c c'
unfolding eval_repl_command_on_table
Made-after s command commands ds ds' c c' (ok d) q more first rest e =
    let (made, split, r) = more _ (ds ++ d ∷ []) rest e in
    let a = run_decision-Accepted s (decision_for c.table command command.kind) c d q in
    (
      d ∷ made,
      split ∙ append_assoc ds (d ∷ []) made,
      Replayed-Accepted a (record { owner = r.owner; replays = r.replays }),
    )
Made-after s command commands ds ds' c c' (err x) q more first rest e =
    let (made, split, r) = more _ ds rest e in
    let same =
      run_decision-undone s (decision_for c.table command command.kind) c x
        (λ d k h. first (decision_for-challenge c.table command command.kind d k h)) q in
    (
      made,
      split,
      Replayed-undone {c₁ = answer true (some x) (eval_repl_command_on_table s command c).1} same r,
    )
Made-after s command commands ds ds' c c' panic q more first rest e = ground (arith, e)

run_commands-Made :
    (s : Sorter) (commands : List ReplCommand) (ds ds' : List PlayerDecision) (c c' : Client)
    → ChallengesPaid s commands c
    → run_commands s commands ds c ≡ some (ds', c')
    → Made s ds ds' c c'
unfolding run_commands
run_commands-Made s [] ds ds' c c' paid e = (
  [],
  ground (arith, e, append-nil ds),
  Replayed-undone {c₁ = c'} (ground (arith, e))
      (record { owner = refl; replays = Replays-nil s _ c'.table }),
)
run_commands-Made s (command ∷ commands) ds ds' c c' paid e =
    Made-after s command commands ds ds' c c' (eval_repl_command_on_table s command c).0 refl
      (λ cs es. run_commands-Made s commands es ds' cs c') paid.0 paid.1 e

-- Where the commands of a turn end, the decisions to be posted, evaluated one after the other from
-- the table before the turn, all succeed and leave the client's own table: refused commands leave
-- no trace. It is asked that the draw deck has four cards whenever a challenge is taken or declined.
pub run_commands-Replayed :
    (s : Sorter) (commands : List ReplCommand) (ds : List PlayerDecision) (c c' : Client)
    → ChallengesPaid s commands c
    → run_commands s commands [] c ≡ some (ds, c')
    → Replayed s c c' ds
run_commands-Replayed s commands ds c c' paid e =
    let (made, split, r) = run_commands-Made s commands [] ds c c' paid e in
    subst (Replayed s c c') (sym split) r
