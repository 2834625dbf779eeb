-- ===== src/HandReader/Making/Piles.antt =====
-- Taking described cards from a deck, and filling the pile.
use uknow.Prelude.{
  ℕ, zero, suc, ◌+◌, ◌-◌, ◌*◌, ◌≤◌, ◌<◌, ◌≡◌, refl, ap, ◌⊎◌, inl, inr, Bool, List, [], ◌∷◌, ◌++◌,
  Outcome, ok, err, panic, arith, ◌==◌, if◌then◌else◌, length, length-append, count, Bool-cases,
}
use uknow.Card.{Card, encode_uint32}
use uknow.Deck.{Deck, must_top, must_pop}
use uknow.Deck.Counts.{deck_cases}
use uknow.HandReader.{ReadError, could_not_remove_card}
use uknow.HandReader.Making.{
  Counts, count_of, set_count, count_cards_from, remove_one, remove_cards_from_deck, fill_pile,
}

-- The cards whose packed form is the key.
abbrev pub has_key : ℕ → Card → Bool
has_key key c = encode_uint32 c == key

count_of-set_count :
    (key k n : ℕ) (m : Counts)
    → count_of key (set_count k n m) ≡ (if k == key then n else count_of key m)
count_of-set_count key k n [] = ground arith
count_of-set_count key k n ((j, i) ∷ m) = ground (arith, count_of-set_count key k n m)

count_cards_from-count :
    (key : ℕ) (d : Deck) (m : Counts)
    → count_of key (count_cards_from d m) ≡ count_of key m + count (has_key key) d
unfolding count_cards_from
count_cards_from-count key [] m = omega arith
count_cards_from-count key (c ∷ d) m = ground (
  arith,
  count_cards_from-count key d (set_count (encode_uint32 c) (count_of (encode_uint32 c) m + 1) m),
  count_of-set_count key (encode_uint32 c) (count_of (encode_uint32 c) m + 1) m,
)

-- All the cards are taken, or one of them is wanted more often than it is there.
abbrev Taken : List Card → Counts → Outcome ReadError Counts → Type 0
Taken cards m r =
    ((m' : Counts) × (r ≡ ok m')
      × ((key : ℕ) → count_of key m' + count (has_key key) cards ≡ count_of key m))
    ⊎ ((c : Card) × (r ≡ err (could_not_remove_card c))
        × (count_of (encode_uint32 c) m < count (has_key (encode_uint32 c)) cards))

remove_cards-Taken :
    (cards : List Card) (m : Counts) → Taken cards m (remove_cards_from_deck cards m)
unfolding remove_cards_from_deck remove_one
remove_cards-Taken [] m = inl (m, refl, λ key. omega arith)
remove_cards-Taken (c ∷ cards) m = elim (Bool-cases (count_of (encode_uint32 c) m == 0)) [
  | inl z ↦ inr (c, ground (arith, z), ground (arith, z))
  | inr p ↦
      let m' = set_count (encode_uint32 c) (count_of (encode_uint32 c) m - 1) m in
      let at = λ (key : ℕ).
        count_of-set_count key (encode_uint32 c) (count_of (encode_uint32 c) m - 1) m in
      elim (remove_cards-Taken cards m') [
        | inl (m'', e, k) ↦ inl (m'', ground (arith, p, e), λ key. ground (arith, p, k key, at key))
        | inr (d, e, l) ↦ inr (d, ground (arith, p, e), ground (arith, p, l, at (encode_uint32 d)))
      ]
]

-- What is left of a deck when cards are taken out of it by their packed form: for each key as many
-- as the deck has more than the cards; or the error names a card that is wanted more often than the
-- deck has it.
pub remove_cards_from_deck_lem :
    (d : Deck) (cards : List Card)
    → ((m : Counts) × (remove_cards_from_deck cards (count_cards_from d []) ≡ ok m)
        × ((key : ℕ) → count_of key m + count (has_key key) cards ≡ count (has_key key) d))
      ⊎ ((c : Card) × (remove_cards_from_deck cards (count_cards_from d [])
            ≡ err (could_not_remove_card c))
          × (count (has_key (encode_uint32 c)) d < count (has_key (encode_uint32 c)) cards))
remove_cards_from_deck_lem d cards =
    let counted = λ (key : ℕ). count_cards_from-count key d [] in
    elim (remove_cards-Taken cards (count_cards_from d [])) [
      | inl (m, e, k) ↦ inl (m, e, λ key. omega (arith, k key, counted key))
      | inr (c, e, l) ↦ inr (c, e, omega (arith, l, counted (encode_uint32 c)))
    ]

must-none : (d : Deck) → d ≡ [] → (must_top d ≡ panic) × (must_pop d ≡ panic)
unfolding must_top must_pop
must-none d e = rw e (refl, refl)

-- Each round takes two cards from the draw deck and puts one of them on the pile; with fewer than
-- two cards for each round, it panics.
abbrev pub Filled : ℕ → Deck → Deck → Outcome ReadError (Deck × Deck) → Type 0
Filled k d pile r =
    ((2 * k ≤ length d)
      × (d' : Deck) × (pile' : Deck) × (r ≡ ok (d', pile'))
      × (length d' + 2 * k ≡ length d)
      × (length pile' ≡ length pile + k))
    ⊎ ((length d < 2 * k) × (r ≡ panic))

pub fill_pile_lem : (k : ℕ) (d pile : Deck) → Filled k d pile (fill_pile k d pile)
unfolding fill_pile
fill_pile_lem zero d pile = inl (omega arith, d, pile, refl, omega arith, omega arith)
fill_pile_lem (suc k) d pile = elim (deck_cases d) [
  | inl e ↦ inr (omega (arith, ap length e), ground (arith, must-none d e))
  | inr (c, r, _, et, _, er, ed) ↦ elim (deck_cases r) [
    | inl e' ↦ inr (
      omega (arith, ap length ed, length-append r (c ∷ []), ap length e'),
      ground (arith, et, er, must-none r e'),
    )
    | inr (c', r', _, _, _, er', ed') ↦
        let l = length-append r (c ∷ []) in
        let l' = length-append r' (c' ∷ []) in
        elim (fill_pile_lem k r' (pile ++ c ∷ [])) [
          | inl (h, d', p', e, a, b) ↦ inl (
            omega (arith, h, ap length ed, ap length ed', l, l'),
            d',
            p',
            ground (arith, et, er, er', e),
            omega (arith, a, ap length ed, ap length ed', l, l'),
            omega (arith, b, length-append pile (c ∷ [])),
          )
          | inr (h, e) ↦
              inr (
                omega (arith, h, ap length ed, ap length ed', l, l'),
                ground (arith, et, er, er', e),
              )
        ]
  ]
]
