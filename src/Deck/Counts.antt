-- ===== src/Deck/Counts.antt =====
-- How the operations of a deck move cards, counted by any test on cards.
use native.Mathlib.Nat.{zero-add}
use mathlib.Core.Path.{subst}
use uknow.Prelude.{
  ℕ, zero, suc, ◌+◌, ◌-◌, ◌<◌, ◌≡◌, refl, sym, ap, ◌∙◌, ◌⊎◌, inl, inr, Bool, false, Option, none,
  some, List, [], ◌∷◌, ◌++◌, ok, err, arith, length, get_elem?, take, drop, count, one,
  length-append, Bool-cases, get_elem?-append_length, take-append_length,
}
use uknow.Card.{Card, is_equal}
use uknow.Deck.{
  Deck, push, top, must_top, pop, must_pop, remove_card, find_from, find_and_remove_card,
  could_not_remove_card,
}
use uknow.Card.Codec.{is_equal_iff}

take-last :
    (d : Deck) (n : ℕ)
    → length d ≡ suc n
    → (c : Card) × (get_elem? d n ≡ some c) × (d ≡ take n d ++ c ∷ [])
take-last [] n e = absurd (omega arith)
take-last (c ∷ []) zero e = (c, refl, refl)
take-last (c ∷ []) (suc n) e = absurd (omega arith)
take-last (c ∷ b ∷ d) zero e = absurd (omega arith)
take-last (c ∷ b ∷ d) (suc n) e =
    let (t, et, ed) = take-last (b ∷ d) n (omega arith) in (t, et, ap (◌∷◌ c) ed)

-- A deck is empty, or it is the rest that `pop` leaves with the card of `top` behind.
abbrev pub Splits : Deck → Type 0
Splits d =
    (c : Card) × (r : Deck) × (top d ≡ ok c)
    × (must_top d ≡ ok c)
    × (pop d ≡ ok r)
    × (must_pop d ≡ ok r)
    × (d ≡ r ++ c ∷ [])

Splits-cons : (b : Card) (d : Deck) → Splits (b ∷ d)
unfolding top must_top pop must_pop
Splits-cons b d =
    let (c, ec, ed) = take-last (b ∷ d) (length d) refl in
    let e : length (b ∷ d) - 1 ≡ length d = omega arith in
    (c, take (length d) (b ∷ d), rw (e, ec), rw (e, ec), rw e, rw e, ed)

pub deck_cases : (d : Deck) → (d ≡ []) ⊎ Splits d
deck_cases [] = inl refl
deck_cases (b ∷ d) = inr (Splits-cons b d)

-- Pushing one card and popping gives the deck back, and the card was its top.
pub pop-push :
    (d : Deck) (c : Card) → (top (push d (c ∷ [])) ≡ ok c) × (pop (push d (c ∷ [])) ≡ ok d)
unfolding top pop
pop-push [] c = (refl, refl)
pop-push (b ∷ d) c =
    let e : length (b ∷ d ++ c ∷ []) - 1 ≡ length (b ∷ d) =
      omega (arith, length-append (b ∷ d) (c ∷ [])) in
    (rw (e, get_elem?-append_length (b ∷ d) c), rw (e, take-append_length (b ∷ d) (c ∷ [])))

pub count-remove :
    (p : Card → Bool) (d : Deck) (i : ℕ) (c : Card)
    → get_elem? d i ≡ some c
    → count p (take i d ++ drop (i + 1) d) + one p c ≡ count p d
count-remove p [] i c e = cc
count-remove p (b ∷ d) zero c e = ground arith
count-remove p (b ∷ d) (suc i) c e =
    let shift : suc i + 1 ≡ suc (i + 1) = omega arith in
    rw shift (omega (arith, count-remove p d i c e))

-- What the search returns is an index of the deck at which the card stands.
abbrev FindsAt : ℕ → Deck → Card → Option ℕ → Type 0
FindsAt i d w none = count (is_equal w) d ≡ 0
FindsAt i d w (some k) =
    (j : ℕ) × (k ≡ i + j) × (get_elem? d j ≡ some w) × (count (is_equal w) (take j d) ≡ 0)

find_from-FindsAt : (i : ℕ) (d : Deck) (w : Card) → FindsAt i d w (find_from i d w)
unfolding find_from
find_from-FindsAt i [] w = refl
find_from-FindsAt i (c ∷ d) w = elim (Bool-cases (is_equal c w)) [
  | inl hit ↦ rw hit (0, omega arith, ap some ((is_equal_iff c w).0 hit), refl)
  | inr miss ↦ rw miss (shift miss (find_from (i + 1) d w) (find_from-FindsAt (i + 1) d w))
]
  where
    other : is_equal c w ≡ false → is_equal w c ≡ false
    other = λ e. ground arith

    shift : is_equal c w ≡ false → (o : Option ℕ) → FindsAt (i + 1) d w o → FindsAt i (c ∷ d) w o
    shift miss none h = let z : count (is_equal w) d ≡ 0 = h in rw (other miss) (omega arith)
    shift miss (some k) (j, e, g, z) = (suc j, omega arith, g, rw (other miss) (omega arith))

get_elem?-lt {ℓ} :
    {A : Type ℓ} (xs : List A) (i : ℕ) (x : A) → get_elem? xs i ≡ some x → i < length xs
get_elem?-lt [] i x e = cc
get_elem?-lt (y ∷ xs) zero x e = omega arith
get_elem?-lt (y ∷ xs) (suc i) x e = omega (arith, get_elem?-lt xs i x e)

-- The search for a card and its removal: both succeed, or the card is not in the deck.
abbrev pub Removes : Deck → Card → Type 0
Removes d w =
    ((count (is_equal w) d ≡ 0) × (find_from 0 d w ≡ none))
    ⊎ ((i : ℕ) × (find_from 0 d w ≡ some i)
        × (get_elem? d i ≡ some w)
        × (remove_card d i ≡ ok (take i d ++ drop (i + 1) d)))

pub removes : (d : Deck) (w : Card) → Removes d w
unfolding remove_card
removes d w = found (find_from 0 d w) refl (find_from-FindsAt 0 d w)
  where
    found : (o : Option ℕ) → find_from 0 d w ≡ o → FindsAt 0 d w o → Removes d w
    found none e z = inl (z, e)
    found (some k) e (j, ek, g, z) =
        let at : get_elem? d k ≡ some w =
          subst (λ n. get_elem? d n ≡ some w) (sym (ek ∙ zero-add j)) g in
        inr (k, e, at, ground (arith, get_elem?-lt d k w at))

-- `FindAndRemoveCard` fails exactly when the card is not in the deck, and otherwise takes one copy
-- of it out: every count of cards by a test falls by what that card counts.
pub find_and_remove_card_lem :
    (d : Deck) (w : Card)
    → ((count (is_equal w) d ≡ 0) × (find_and_remove_card d w ≡ err (could_not_remove_card w)))
      ⊎ ((r : Deck) × (find_and_remove_card d w ≡ ok r)
          × ((p : Card → Bool) → count p r + one p w ≡ count p d))
unfolding find_and_remove_card
find_and_remove_card_lem d w = elim (removes d w) [
  | inl (z, e) ↦ inl (z, rw (e, find_and_remove_card))
  | inr (i, e, g, r) ↦
      inr (take i d ++ drop (i + 1) d, rw (e, find_and_remove_card) r, λ p. count-remove p d i w g)
]
