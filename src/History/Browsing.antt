-- ===== src/History/Browsing.antt =====
-- Moving through the history, seen on the list of items that the ring holds.
use native.Mathlib.Nat.{eq-zero-or-pos}
use uknow.Prelude.{
  ℕ, zero, suc, ◌+◌, ◌-◌, ◌≤◌, ◌<◌, ◌≡◌, refl, ap, ◌∙◌, inl, inr, ◌⊎◌, Bool, true, false, none,
  some, String, List, [], ◌∷◌, arith, leb, if◌then◌else◌, length, get_elem?, get_elem?_in, min,
}
use uknow.Prelude.Int.{pos, negsuc, ◌+ℤ◌, ◌%ℤ◌, neg}
use uknow.History.{
  HistoryRing, HistoryPos, current_item_pos, clamp_int, item_at, move_to, get_older, get_newer,
}
use uknow.History.Contents.{Holds, get_elem?-bound}

-- One step towards the oldest item, where it stops.
abbrev pub older : ℕ → List String → HistoryPos × String × Bool
older p xs = elim (get_elem? xs (min p (length xs - 1))) [
  | none ↦ (pos p, "<START_OF_HISTORY>", false)
  | some x ↦ (pos (min p (length xs - 1) + 1), x, true)
]

-- One step towards the newest item, and nothing beyond it.
abbrev pub newer : ℕ → List String → HistoryPos × String × Bool
newer p xs = if leb p 1 then (pos p, "<END_OF_HISTORY>", false) else elim (get_elem? xs (p - 2)) [
  | none ↦ (pos p, "<END_OF_HISTORY>", false)
  | some x ↦ (pos (p - 1), x, true)
]

none_at : (xs : List String) (k : ℕ) → length xs ≡ 0 → get_elem? xs k ≡ none
none_at [] k z = refl
none_at (x ∷ xs) k z = absurd (omega (arith, z))

module _ {n : ℕ} {xs : List String} {r : HistoryRing} (h : Holds n xs r) where
  offset :
      (k : ℕ)
      → k < length xs
      → pos (r.head + r.size) +ℤ negsuc 0 +ℤ neg (pos k) ≡ pos (r.head + r.size - 1 - k)
  unfolding ◌+ℤ◌ neg
  offset k b = ground (arith, h.size)

  item_at_lem : (k : ℕ) (x : String) → get_elem? xs k ≡ some x → item_at r (pos k) ≡ some x
  unfolding item_at ◌%ℤ◌
  item_at_lem k x e =
      rw (offset k (get_elem?-bound xs k x e)) (ground (arith, h.at k x e, h.room, h.some_room))

  clamp_int_lem :
      (k : ℕ)
      → 0 < length xs
      → clamp_int (pos k) (pos 0) (pos r.size +ℤ negsuc 0) ≡ pos (min k (length xs - 1))
  unfolding clamp_int ◌+ℤ◌
  clamp_int_lem k b = ground (arith, h.size)

  move_to_lem :
      (k : ℕ) (x : String)
      → get_elem? xs (min k (length xs - 1)) ≡ some x
      → move_to r (pos k) ≡ some (pos (min k (length xs - 1) + 1), x, true)
  unfolding move_to ◌+ℤ◌
  move_to_lem k x e =
      let b = get_elem?-bound xs (min k (length xs - 1)) x e in
      ground (arith, clamp_int_lem k (omega (arith, b)), item_at_lem (min k (length xs - 1)) x e)

  -- What the code computes before it moves, at a position that is not the reset one.
  get_older_moves :
      (p : ℕ) → p ≤ length xs → 0 < length xs → get_older (pos p) r ≡ move_to r (pos p)
  unfolding get_older current_item_pos ◌+ℤ◌
  get_older_moves zero b l = ground (arith, h.size)
  get_older_moves (suc p) b l = ground (arith, h.size)

  get_older_none : length xs ≡ 0 → get_older (pos 0) r ≡ some (pos 0, "<START_OF_HISTORY>", false)
  unfolding get_older current_item_pos ◌+ℤ◌
  get_older_none l = ground (arith, h.size)

  get_newer_moves : (p : ℕ) → get_newer (pos (suc (suc p))) r ≡ move_to r (pos p)
  unfolding get_newer current_item_pos ◌+ℤ◌
  get_newer_moves p = ground arith

  get_older_from :
      (p : ℕ)
      → p ≤ length xs
      → (length xs ≡ 0) ⊎ (0 < length xs)
      → get_older (pos p) r ≡ some (older p xs)
  get_older_from zero b (inl z) =
      get_older_none z ∙ ground (arith, none_at xs (min 0 (length xs - 1)) z)
  get_older_from (suc p) b (inl z) = absurd (omega (arith, z, b))
  get_older_from p b (inr l) =
      let (x, e) = get_elem?_in xs (min p (length xs - 1)) (omega arith) in
      get_older_moves p b l ∙ move_to_lem p x e ∙ ground (arith, e)

  -- From a position in the ring, `GetOlder` takes one step towards the oldest item and shows it; at
  -- the oldest item it stays there, and in an empty ring it tells that the history starts.
  pub get_older_lem : (p : ℕ) → p ≤ length xs → get_older (pos p) r ≡ some (older p xs)
  get_older_lem p b = get_older_from p b (eq-zero-or-pos (length xs))

  -- From a position in the ring, `GetNewer` takes one step towards the newest item and shows it; at
  -- the newest item and on reset it tells that the history ends.
  pub get_newer_lem : (p : ℕ) → p ≤ length xs → get_newer (pos p) r ≡ some (newer p xs)
  unfolding get_newer current_item_pos ◌+ℤ◌
  get_newer_lem zero b = refl
  get_newer_lem (suc zero) b = refl
  get_newer_lem (suc (suc p)) b =
      let (x, e) = get_elem?_in xs p (omega (arith, b)) in
      let m : min p (length xs - 1) ≡ p = omega (arith, b) in
      let two : suc (suc p) - 2 ≡ p = omega arith in
      get_newer_moves p ∙ move_to_lem p x (ap (get_elem? xs) m ∙ e) ∙ ground (arith, m, e, two)
