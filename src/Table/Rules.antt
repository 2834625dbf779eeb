-- ===== src/Table/Rules.antt =====
-- When a call on the game keeps a property of its table, however the call ends.
use uknow.Prelude.{◌≡◌, arith, Bool, true, false, Outcome, ok, err, panic, if◌then◌else◌}
use uknow.Event.{GameEvent}
use uknow.Table.{Table, TableError, PlayerDecision}
use uknow.Table.Game.{
  Game, M, ◌>>=◌, return, crash, lift, require, when, get_table, modify, send, drop_error,
  wrap_error,
}

pub record Keeps {A : Type 0} (P : Table → Type 0) (m : M A) : Type 0 where
  pub at : (g : Game) → P g.table → P (m g).1.table

drop_error-game : (m : M (Unit {0})) (g : Game) → (drop_error m g).1 ≡ (m g).1
unfolding drop_error
drop_error-game m g = ground arith

wrap_error-game :
    {A : Type 0} (d : PlayerDecision) (m : M A) (g : Game) → (wrap_error d m g).1 ≡ (m g).1
unfolding wrap_error
wrap_error-game d m g = ground arith

module _ {P : Table → Type 0} where
  pub Keeps-return : {A : Type 0} (a : A) → Keeps P (return a)
  unfolding return
  Keeps-return a = record { at = λ g h. h }

  pub Keeps-crash : {A : Type 0} → Keeps P (crash {A = A})
  unfolding crash
  Keeps-crash = record { at = λ g h. h }

  pub Keeps-lift : {A : Type 0} (r : Outcome TableError A) → Keeps P (lift r)
  unfolding lift
  Keeps-lift r = record { at = λ g h. h }

  pub Keeps-get_table : Keeps P get_table
  unfolding get_table
  Keeps-get_table = record { at = λ g h. h }

  pub Keeps-send : (e : GameEvent) → Keeps P (send e)
  unfolding send
  Keeps-send e = record { at = λ g h. h }

  pub Keeps-modify : (f : Table → Table) → ((t : Table) → P t → P (f t)) → Keeps P (modify f)
  unfolding modify
  Keeps-modify f k = record { at = λ g h. k g.table h }

  pub Keeps-require : (b : Bool) (e : TableError) → Keeps P (require b e)
  unfolding require
  Keeps-require true e = record { at = λ g h. h }
  Keeps-require false e = record { at = λ g h. h }

  pub Keeps-when : (b : Bool) (m : M (Unit {0})) → Keeps P m → Keeps P (when b m)
  unfolding when
  Keeps-when true m km = record { at = λ g h. km.at g h }
  Keeps-when false m km = record { at = λ g h. h }

  pub Keeps-if :
      {A : Type 0} (b : Bool) (m n : M A) → Keeps P m → Keeps P n → Keeps P (if b then m else n)
  Keeps-if true m n km kn = km
  Keeps-if false m n km kn = kn

  keeps_rest :
      {A B : Type 0} (r : Outcome TableError A) (f : A → M B) (g : Game)
      → ((a : A) → Keeps P (f a))
      → P g.table
      → P (◌>>=◌ (λ _. (r, g)) f g).1.table
  unfolding ◌>>=◌
  keeps_rest (ok a) f g kf h = (kf a).at g h
  keeps_rest (err e) f g kf h = h
  keeps_rest panic f g kf h = h

  pub Keeps-bind :
      {A B : Type 0} (call : M A) (next : A → M B)
      → Keeps P call
      → ((result : A) → Keeps P (next result))
      → Keeps P (call >>= next)
  unfolding ◌>>=◌
  Keeps-bind call next first second = record {
    at = λ g h. keeps_rest (call g).0 next (call g).1 second (first.at g h);
  }

  pub Keeps-drop_error : (m : M (Unit {0})) → Keeps P m → Keeps P (drop_error m)
  Keeps-drop_error m km = record { at = λ g h. rw drop_error-game (km.at g h) }

  pub Keeps-wrap_error :
      {A : Type 0} (d : PlayerDecision) (m : M A) → Keeps P m → Keeps P (wrap_error d m)
  Keeps-wrap_error d m km = record { at = λ g h. rw wrap_error-game (km.at g h) }

pub ruleset keeps_rules = (
  Keeps-return, Keeps-crash, Keeps-lift, Keeps-get_table, Keeps-send, Keeps-modify, Keeps-require,
  Keeps-when, Keeps-if, Keeps-bind, Keeps-drop_error, Keeps-wrap_error,
)
