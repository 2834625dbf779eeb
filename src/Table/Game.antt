-- ===== src/Table/Game.antt =====
-- A table with the events that it has sent so far, oldest first, and the calls that change the two.
use uknow.Prelude.{◌++◌, List, [], ◌∷◌, Outcome, ok, err, panic, Bool, true, false}
use uknow.Event.{GameEvent}
use uknow.Table.{Table, TableError, Reason, PlayerDecision, bare, eval_decision}

pub record Game : Type 0 where
  pub table : Table
  pub sent : List GameEvent

-- A call returns its outcome and the game that it leaves, also where it fails.
abbrev pub M : Type 0 → Type 0
M A = Game → Outcome TableError A × Game

infixl 5 ◌>>=◌ ◌>>◌
unfoldable pub ◌>>=◌ : {A B : Type 0} → M A → (A → M B) → M B
◌>>=◌ m f g =
    let (r, g') = m g in elim r [ ok a ↦ f a g' | err e ↦ (err e, g') | panic ↦ (panic, g') ]

abbrev pub ◌>>◌ : {B : Type 0} → M (Unit {0}) → M B → M B
m >> k = m >>= λ _. k

unfoldable pub return : {A : Type 0} → A → M A
return a g = (ok a, g)

unfoldable pub crash : {A : Type 0} → M A
crash g = (panic, g)

unfoldable pub lift : {A : Type 0} → Outcome TableError A → M A
lift r g = (r, g)

unfoldable pub require : Bool → TableError → M (Unit {0})
require true e g = (ok tt, g)
require false e g = (err e, g)

unfoldable pub when : Bool → M (Unit {0}) → M (Unit {0})
when true m g = m g
when false m g = (ok tt, g)

unfoldable pub get_table : M Table
get_table g = (ok g.table, g)

unfoldable pub modify : (Table → Table) → M (Unit {0})
modify f g = (ok tt, record g { table = f g.table })

-- `gameEventPushChan <- event`
unfoldable pub send : GameEvent → M (Unit {0})
send e g = (ok tt, record g { sent = g.sent ++ e ∷ [] })

-- The `return` on an error inside `evalPlayedActionCard`: the error is logged and dropped.
unfoldable pub drop_error : M (Unit {0}) → M (Unit {0})
drop_error m g =
    let (r, g') = m g in elim r [ ok a ↦ (ok tt, g') | err e ↦ (ok tt, g') | panic ↦ (panic, g') ]

-- The reason in an error of the table.
abbrev reason : TableError → Reason
reason (bare r) = r
reason (eval_decision d r) = r

-- `&EvalDecisionError{Decision: decision, Reason: err}` around the error of a call.
unfoldable pub wrap_error : {A : Type 0} → PlayerDecision → M A → M A
wrap_error decision m g =
    let (r, g') = m g in
    elim r [
      | ok c ↦ (ok c, g')
      | err e ↦ (err (eval_decision decision (reason e)), g')
      | panic ↦ (panic, g')
    ]

-- Unfolding this unfolds the calls above.
unfoldable pub run : {A : Type 0} → M A → Game → Outcome TableError A × Game
unfolding ◌>>=◌ return crash lift require when get_table modify send drop_error wrap_error
run m g = m g
