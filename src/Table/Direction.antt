-- ===== src/Table/Direction.antt =====
-- Which seat comes next. The seats are numbered by the list of names.
use uknow.Prelude.{
  ℕ, zero, suc, ◌+◌, ◌-◌, ◌%◌, ◌<◌, ◌≡◌, ap, ◌∙◌, ◌⊎◌, inl, inr, String, some, ok, arith,
  if◌then◌else◌, get_elem?, lookup, ◌==◌,
}
use uknow.Prelude.Int.{ℤ, pos, negsuc, ◌+ℤ◌, ◌*ℤ◌, neg, is_negative}
use native.Mathlib.Nat.{mod-eq_of_lt}
use uknow.Table.{Table}
use uknow.Table.Seats.{player_count, wrap_index, get_next_player_index, player_at, index_from}

-- `Direction` is 1 or -1.
abbrev pub IsDirection : ℤ → Type 0
IsDirection d = (d ≡ pos 1) ⊎ (d ≡ negsuc 0)

-- The seat after i of n seats, and the seat before it.
abbrev pub seat_after : ℕ → ℕ → ℕ
seat_after i n = if i + 1 == n then 0 else i + 1

abbrev pub seat_before : ℕ → ℕ → ℕ
seat_before i n = if i == 0 then n - 1 else i - 1

mod_after : (i n : ℕ) → i < n → (i + 1) % n ≡ seat_after i n
mod_after i n h = grind (arith, mod-eq_of_lt)

wrap_index-pos : (n x : ℕ) → 0 < n → wrap_index n (pos x) ≡ ok (pos (x % n))
unfolding wrap_index
wrap_index-pos n x h = ground (arith, mod-eq_of_lt {n = 0} {m = n} h)

wrap_index-minus_one : (n : ℕ) → 0 < n → wrap_index n (negsuc 0) ≡ ok (pos (n - 1))
unfolding wrap_index
wrap_index-minus_one n h = ground (arith, mod-eq_of_lt {n = 0} {m = n} h, mod_after 0 n h)

pub neg-IsDirection : {d : ℤ} → IsDirection d → IsDirection (neg d)
unfolding neg
neg-IsDirection (inl e) = inr (rw e)
neg-IsDirection (inr e) = inl (rw e)

forward : (i : ℕ) → pos i +ℤ pos 1 ≡ pos (i + 1)
unfolding ◌+ℤ◌
forward i = ground arith

backward : (i : ℕ) → pos i +ℤ negsuc 0 ≡ (if i == 0 then negsuc 0 else pos (i - 1))
unfolding ◌+ℤ◌
backward i = ground arith

square : (d : ℤ) → IsDirection d → d *ℤ d ≡ pos 1
unfolding ◌*ℤ◌
square d (inl e) = rw e
square d (inr e) = rw e

times_one : (d : ℤ) → IsDirection d → d *ℤ pos 1 ≡ d
unfolding ◌*ℤ◌
times_one d (inl e) = rw e
times_one d (inr e) = rw e

-- The call with the direction as the step goes one seat up the list, in either direction.
pub get_next_player_index-direction :
    (t : Table) (i : ℕ)
    → IsDirection t.direction
    → i < player_count t
    → get_next_player_index t (pos i) t.direction ≡ ok (pos (seat_after i (player_count t)))
unfolding get_next_player_index
get_next_player_index-direction t i d h =
    rw (square t.direction d, forward i)
      (wrap_index-pos _ (i + 1) (omega arith)
        ∙ ap (λ k. ok (pos k)) (mod_after i (player_count t) h))

-- A step of one seat goes up the list in direction 1 and down the list in direction -1.
pub get_next_player_index-one :
    (t : Table) (i : ℕ)
    → IsDirection t.direction
    → i < player_count t
    → get_next_player_index t (pos i) (pos 1)
      ≡ ok (
          pos (
            if is_negative t.direction
            then seat_before i (player_count t)
            else seat_after i (player_count t)))
unfolding get_next_player_index
get_next_player_index-one t i (inl e) h =
    rw (times_one t.direction (inl e), e, forward i)
      (wrap_index-pos _ (i + 1) (omega arith)
        ∙ ap (λ k. ok (pos k)) (mod_after i (player_count t) h))
get_next_player_index-one t i (inr e) h =
    rw (times_one t.direction (inr e), e, backward i) (down i h)
  where
    down :
        (k : ℕ)
        → k < player_count t
        → wrap_index (player_count t) (if k == 0 then negsuc 0 else pos (k - 1))
          ≡ ok (pos (seat_before k (player_count t)))
    down zero h' = wrap_index-minus_one _ (omega arith)
    down (suc k) h' = ground (
      arith,
      wrap_index-pos (player_count t) k (omega arith),
      mod-eq_of_lt {n = k} {m = player_count t} (omega arith),
    )

-- The name at a seat of the table.
abbrev pub SitsAt : Table → ℕ → String → Type 0
SitsAt t i name = get_elem? t.player_names i ≡ some name

pub player_at-pos :
    (t : Table) (i : ℕ) (name : String) → SitsAt t i name → player_at t (pos i) ≡ ok name
unfolding player_at
player_at-pos t i name e = rw (e, player_at)

-- A table at which turns can be passed: its direction is 1 or -1, and `IndexOfPlayer` and the first
-- place of a name in `PlayerNames` agree on the seat of the name.
pub record SeatOf (t : Table) (name : String) (i : ℕ) : Type 0 where
  pub directed : IsDirection t.direction
  pub first : index_from 0 t.player_names name ≡ some i
  pub index : lookup name t.index_of_player ≡ some i
  pub inside : i < player_count t

pub seat_after-lt : (i n : ℕ) → i < n → seat_after i n < n
seat_after-lt i n h = ground arith
