-- ===== src/Table/Local.antt =====
-- Calls that do the same to two tables that differ in the name of their owner, up to what is sent.
pub mod Decisions
use uknow.Prelude.{
  ◌≡◌, refl, sym, ap, Bool, true, false, String, List, Outcome, ok, err, panic, arith,
  if◌then◌else◌,
}
use uknow.Prelude.Int.{ℤ}
use uknow.Event.{GameEvent}
use uknow.Table.{Table, TableError, PlayerDecision}
use uknow.Table.Seats.{get_next_player_index, wrap_index, player_at, player_index_from_name}
use uknow.Table.Game.{
  Game, M, ◌>>=◌, return, crash, lift, require, when, get_table, modify, send, drop_error,
  wrap_error,
}

-- The table as the player with the name has it.
abbrev pub owned_by : String → Table → Table
owned_by name t = record t { local_player_name = name }

-- The second call does to the owner's table what the first one does to another one.
pub record Agrees {A : Type 0} (owner : String) (m n : M A) : Type 0 where
  pub at :
      (g h : Game)
      → h.table ≡ owned_by owner g.table
      → ((n h).0 ≡ (m g).0) × ((n h).1.table ≡ owned_by owner (m g).1.table)

pub next_index-owned :
    (owner : String) (t : Table) (i step : ℤ)
    → get_next_player_index (owned_by owner t) i step ≡ get_next_player_index t i step
unfolding get_next_player_index
next_index-owned owner t i step = refl

pub player_at-owned :
    (owner : String) (t : Table) (i : ℤ) → player_at (owned_by owner t) i ≡ player_at t i
unfolding player_at
player_at-owned owner t i = ground arith

pub name_index-owned :
    (owner : String) (t : Table) (name : String)
    → player_index_from_name (owned_by owner t) name ≡ player_index_from_name t name
unfolding player_index_from_name
name_index-owned owner t name = refl

module _ {owner : String} where
  -- It is enough to look at the owner's copy of the table itself.
  pub Agrees-copy :
      {A : Type 0} (m n : M A)
      → ((g : Game) (es : List GameEvent)
          → let h = n (record { table = owned_by owner g.table; sent = es }) in
            (h.0 ≡ (m g).0) × (h.1.table ≡ owned_by owner (m g).1.table))
      → Agrees owner m n
  Agrees-copy m n k = record { at = λ g h e. rw e (k g h.sent) }

  pub Agrees-return : {A : Type 0} (a : A) → Agrees owner (return a) (return a)
  unfolding return
  Agrees-return a = record { at = λ g h e. (refl, e) }

  pub Agrees-crash : {A : Type 0} → Agrees owner (crash {A = A}) crash
  unfolding crash
  Agrees-crash = record { at = λ g h e. (refl, e) }

  pub Agrees-lift :
      {A : Type 0} (r r' : Outcome TableError A) → r' ≡ r → Agrees owner (lift r) (lift r')
  unfolding lift
  Agrees-lift r r' q = record { at = λ g h e. (q, e) }

  pub Agrees-send : (e e' : GameEvent) → Agrees owner (send e) (send e')
  unfolding send
  Agrees-send e e' = record { at = λ g h q. (refl, q) }

  pub Agrees-modify :
      (f f' : Table → Table)
      → ((t : Table) → f' (owned_by owner t) ≡ owned_by owner (f t))
      → Agrees owner (modify f) (modify f')
  unfolding modify
  Agrees-modify f f' k = record { at = λ g h e. (refl, rw e (k g.table)) }

  pub Agrees-require : (b : Bool) (e : TableError) → Agrees owner (require b e) (require b e)
  unfolding require
  Agrees-require true e = record { at = λ g h q. (refl, q) }
  Agrees-require false e = record { at = λ g h q. (refl, q) }

  pub Agrees-when :
      (b : Bool) (m n : M (Unit {0})) → Agrees owner m n → Agrees owner (when b m) (when b n)
  unfolding when
  Agrees-when true m n k = record { at = λ g h q. k.at g h q }
  Agrees-when false m n k = record { at = λ g h q. (refl, q) }

  pub Agrees-if :
      {A : Type 0} (b : Bool) (m n m' n' : M A)
      → Agrees owner m m'
      → Agrees owner n n'
      → Agrees owner (if b then m else n) (if b then m' else n')
  Agrees-if true m n m' n' k k' = k
  Agrees-if false m n m' n' k k' = k'

  Agrees-rest :
      {A B : Type 0} (r r' : Outcome TableError A) (f f' : A → M B) (g h : Game)
      → r' ≡ r
      → h.table ≡ owned_by owner g.table
      → ((a : A) → Agrees owner (f a) (f' a))
      → ((◌>>=◌ (λ _. (r', h)) f' h).0 ≡ (◌>>=◌ (λ _. (r, g)) f g).0)
        × ((◌>>=◌ (λ _. (r', h)) f' h).1.table ≡ owned_by owner (◌>>=◌ (λ _. (r, g)) f g).1.table)
  unfolding ◌>>=◌
  Agrees-rest (ok a) r' f f' g h q e k = rw q ((k a).at g h e)
  Agrees-rest (err x) r' f f' g h q e k = rw q (refl, e)
  Agrees-rest panic r' f f' g h q e k = rw q (refl, e)

  pub Agrees-bind :
      {A B : Type 0} (m n : M A) (f f' : A → M B)
      → Agrees owner m n
      → ((a : A) → Agrees owner (f a) (f' a))
      → Agrees owner (m >>= f) (n >>= f')
  unfolding ◌>>=◌
  Agrees-bind m n f f' first second = record {
    at = λ g h e.
        let (q, e') = first.at g h e in
        Agrees-rest (m g).0 (n h).0 f f' (m g).1 (n h).1 q e' second;
  }

  pub Agrees-get_table :
      {A : Type 0} (f f' : Table → M A)
      → ((t : Table) → Agrees owner (f t) (f' (owned_by owner t)))
      → Agrees owner (get_table >>= f) (get_table >>= f')
  unfolding ◌>>=◌ get_table
  Agrees-get_table f f' k = record {
    at = λ g h e.
        rw e ((k g.table).at g (record { table = owned_by owner g.table; sent = h.sent }) refl);
  }

  pub Agrees-drop_error :
      (m n : M (Unit {0})) → Agrees owner m n → Agrees owner (drop_error m) (drop_error n)
  unfolding drop_error
  Agrees-drop_error m n k = record { at = λ g h e. ground (arith, k.at g h e) }

  pub Agrees-wrap_error :
      {A : Type 0} (d : PlayerDecision) (m n : M A)
      → Agrees owner m n
      → Agrees owner (wrap_error d m) (wrap_error d n)
  unfolding wrap_error
  Agrees-wrap_error d m n k = record { at = λ g h e. ground (arith, k.at g h e) }

pub ruleset agrees_rules = (
  Agrees-return, Agrees-crash, Agrees-lift, Agrees-send, Agrees-modify, Agrees-require, Agrees-when,
  Agrees-if, Agrees-get_table, Agrees-bind, Agrees-drop_error, Agrees-wrap_error, next_index-owned,
  player_at-owned, name_index-owned, refl,
)
