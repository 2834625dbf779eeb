-- ===== src/Admin/Requests.antt =====
-- A request that the server refuses, and what it leaves.
use mathlib.Core.Path.{subst}
use uknow.Prelude.{
  ℕ, ◌≡◌, ◌≢◌, refl, ap, ◌∙◌, inl, inr, true, false, String, List, ◌∷◌, Option, none, some, err,
  arith, count, str_eq, Bool-cases,
}
use uknow.Deck.{Sorter}
use uknow.Table.{Table, add_player, contains_name, bare, existing_player}
use uknow.Table.Seating.{contains_name-count}
use uknow.Admin.Server.{
  Admin, Reply, is_adding, handle_add_new_player, handle_ack_new_player_added,
  handle_ack_player_decision_synced, status_unprocessable,
}
use uknow.Admin.Dispatch.{take_ack}
use uknow.Admin.Steps.{
  Step, adds_player, acks_player, acks_decision, sets_ready, decides, runs, takes_ack, times_out,
}

-- Any number of steps.
pub data Steps (s : Sorter) : Admin → Admin → Type 0 where
  stop : {a : Admin} → Steps s a a
  go : {a b c : Admin} → Step s a b → Steps s b c → Steps s a c

-- The server can only note acks.
pub record Halted (a b : Admin) : Type 0 where
  pub locked : b.locked ≡ true
  pub state : b.state ≡ a.state
  pub table : b.table ≡ a.table

acks_player-Halted :
    (body : Option (String × String)) (a : Admin)
    → a.locked ≡ true
    → Halted a (handle_ack_new_player_added body a).1
unfolding handle_ack_new_player_added
acks_player-Halted none a l = record { locked = l; state = refl; table = refl }
acks_player-Halted (some (acker, new)) a l = record { locked = l; state = refl; table = refl }

acks_decision-Halted :
    (body : Option (String × ℕ)) (a : Admin)
    → a.locked ≡ true
    → Halted a (handle_ack_player_decision_synced body a).1
unfolding handle_ack_player_decision_synced
acks_decision-Halted none a l = record { locked = l; state = refl; table = refl }
acks_decision-Halted (some (acker, counter)) a l = record { locked = l; state = refl; table = refl }

take_ack-Halted : (a b : Admin) → a.locked ≡ true → take_ack a ≡ some b → Halted a b
unfolding take_ack
take_ack-Halted a b l e = record {
  locked = ground arith;
  state = ground arith;
  table = ground arith;
}

Step-Halted : {s : Sorter} (a b : Admin) → a.locked ≡ true → Step s a b → Halted a b
Step-Halted a _ l (adds_player body u) = absurd (ground (arith, l, u))
Step-Halted a _ l (acks_player body) = acks_player-Halted body a l
Step-Halted a _ l (acks_decision body) = acks_decision-Halted body a l
Step-Halted a _ l (sets_ready resolved r order body u) = absurd (ground (arith, l, u))
Step-Halted a _ l (decides taken body u) = absurd (ground (arith, l, u))
Step-Halted a b l (runs sent via_prompt job rest u t e) = absurd (ground (arith, l, u))
Step-Halted a b l (takes_ack e) = take_ack-Halted a b l e
Step-Halted a _ l (times_out goroutine e) = record { locked = l; state = refl; table = refl }

Steps-Halted : {s : Sorter} (a b : Admin) → a.locked ≡ true → Steps s a b → Halted a b
Steps-Halted a _ l stop = record { locked = l; state = refl; table = refl }
Steps-Halted a c l (go {b = b} one more) =
    let h = Step-Halted a b l one in
    let k = Steps-Halted b c h.locked more in
    record { locked = k.locked; state = k.state ∙ h.state; table = k.table ∙ h.table }

existing_name :
    (t : Table) (joiner : String)
    → count (str_eq joiner) t.player_names ≢ 0
    → add_player t joiner ≡ err (bare (existing_player joiner))
unfolding add_player
existing_name t joiner n = elim (Bool-cases (contains_name t.player_names joiner)) [
  | inl e ↦ rw e refl
  | inr e ↦ absurd (n (contains_name-count t.player_names joiner e))
]

refused_join :
    (a : Admin) (joiner : String) (rest : List String)
    → is_adding a.state ≡ true
    → a.table.is_shuffled ≡ false
    → add_player a.table joiner ≡ err (bare (existing_player joiner))
    → handle_add_new_player (some (joiner ∷ rest)) a
      ≡ (status_unprocessable, record a { locked = true })
unfolding handle_add_new_player
refused_join a joiner rest h n e = ground (arith, e)

-- While players are added and the hands are not yet dealt, a join with a name that already sits at the
-- table halts the server: it is refused as unprocessable, and whatever comes after, short of a restart,
-- the state of the server and its table stay as they are, since the mutex stays locked.
pub second_join_halts :
    (s : Sorter) (a b : Admin) (joiner : String) (rest : List String)
    → is_adding a.state ≡ true
    → a.table.is_shuffled ≡ false
    → count (str_eq joiner) a.table.player_names ≢ 0
    → Steps s (handle_add_new_player (some (joiner ∷ rest)) a).1 b
    → ((handle_add_new_player (some (joiner ∷ rest)) a).0 ≡ status_unprocessable) × Halted a b
second_join_halts s a b joiner rest adding not_shuffled there steps =
    let refused =
      refused_join a joiner rest adding not_shuffled (existing_name a.table joiner there) in
    let h =
      Steps-Halted (record a { locked = true }) b refl
        (subst (λ (x : Reply × Admin). Steps s x.1 b) refused steps) in
    (
      ap (λ (x : Reply × Admin). x.0) refused,
      record { locked = h.locked; state = h.state; table = h.table },
    )
