-- ===== src/Prelude/Swaps.antt =====
-- Exchanging two elements of a slice, and how often a number or a card stands in a list.
use Prim.Native.Nat.{ℕ, zero, suc, ◌+◌, ◌<◌}
use mathlib.Core.Path.{◌≡◌, refl, ◌∙◌}
use mathlib.Core.Bool.{Bool, true}
use mathlib.Core.Option.{Option, none, some}
use mathlib.Core.List.{List, [], ◌∷◌, ◌++◌}
use native.Mathlib.Omega.{arith}
use uknow.Prelude.Tests.{if◌then◌else◌}
use uknow.Prelude.Lists.{length, get_elem?, set, take, drop, length-set, get_elem?_in}

module _ {ℓ} {A : Type ℓ} where
  -- `xs[i], xs[j] = xs[j], xs[i]`; `none` is the panic of an index out of range.
  abbrev pub swap_elements : List A → ℕ → ℕ → Option (List A)
  swap_elements xs i j = elim (get_elem? xs i) [
    | none ↦ none
    | some a ↦ elim (get_elem? xs j) [ none ↦ none | some b ↦ some (set (set xs i b) j a) ]
  ]

  -- How many elements pass the test.
  abbrev pub count : (A → Bool) → List A → ℕ
  count p [] = 0
  count p (x ∷ xs) = (if p x then 1 else 0) + count p xs

  abbrev pub one : (A → Bool) → A → ℕ
  one p x = if p x then 1 else 0

  pub count-all : (xs : List A) → count (λ _. true) xs ≡ length xs
  count-all [] = refl
  count-all (x ∷ xs) = omega (arith, count-all xs)

  pub count-append : (p : A → Bool) (xs ys : List A) → count p (xs ++ ys) ≡ count p xs + count p ys
  count-append p [] ys = omega arith
  count-append p (x ∷ xs) ys = omega (arith, count-append p xs ys)

  pub count-take-drop :
      (p : A → Bool) (n : ℕ) (xs : List A) → count p (take n xs) + count p (drop n xs) ≡ count p xs
  count-take-drop p zero xs = omega arith
  count-take-drop p (suc n) [] = omega arith
  count-take-drop p (suc n) (x ∷ xs) = omega (arith, count-take-drop p n xs)

  pub count-set :
      (p : A → Bool) (xs : List A) (i : ℕ) (a b : A)
      → get_elem? xs i ≡ some a
      → count p (set xs i b) + one p a ≡ count p xs + one p b
  count-set p [] i a b e = ground arith
  count-set p (x ∷ xs) zero a b e = ground arith
  count-set p (x ∷ xs) (suc i) a b e = omega (arith, count-set p xs i a b e)

  get_elem?-set :
      (xs : List A) (i j : ℕ) (b : A) → get_elem? xs j ≡ some b → get_elem? (set xs i b) j ≡ some b
  get_elem?-set [] i j b e = e
  get_elem?-set (x ∷ xs) zero zero b e = refl
  get_elem?-set (x ∷ xs) zero (suc j) b e = e
  get_elem?-set (x ∷ xs) (suc i) zero b e = e
  get_elem?-set (x ∷ xs) (suc i) (suc j) b e = get_elem?-set xs i j b e

  pub count-swap_at :
      (p : A → Bool) (xs : List A) (i j : ℕ) (a b : A)
      → get_elem? xs i ≡ some a
      → get_elem? xs j ≡ some b
      → count p (set (set xs i b) j a) ≡ count p xs
  count-swap_at p xs i j a b e f =
      omega
        (arith, count-set p xs i a b e, count-set p (set xs i b) j b a (get_elem?-set xs i j b f))

  swap_elements_lem :
      (xs : List A) (i j : ℕ) (a b : A)
      → get_elem? xs i ≡ some a
      → get_elem? xs j ≡ some b
      → swap_elements xs i j ≡ some (set (set xs i b) j a)
  swap_elements_lem xs i j a b e f = ground arith

  -- An exchange inside the list keeps its elements and its length.
  pub swap_elements_in :
      (xs : List A) (i j : ℕ)
      → i < length xs
      → j < length xs
      → (ys : List A) × (swap_elements xs i j ≡ some ys)
        × ((p : A → Bool) → count p ys ≡ count p xs)
        × (length ys ≡ length xs)
  swap_elements_in xs i j hi hj =
      let (a, ea) = get_elem?_in xs i hi in
      let (b, eb) = get_elem?_in xs j hj in
      (
        set (set xs i b) j a,
        swap_elements_lem xs i j a b ea eb,
        (λ p. count-swap_at p xs i j a b ea eb),
        length-set (set xs i b) j a ∙ length-set xs i b,
      )
