-- ===== src/Table/Deal/Counts.antt =====
-- A shuffle rearranges, and a deal moves cards from the draw deck to the hands.
use native.Mathlib.Nat.{mul-suc}
use uknow.Prelude.{
  ℕ, zero, suc, ◌+◌, ◌*◌, ◌≤◌, ◌≡◌, refl, ap, ◌∙◌, ◌≢◌, inl, inr, Bool, false, not, String, List,
  [], ◌∷◌, Outcome, ok, arith, lookup_or-insert, insert, str_eq, eq_iff, eq_refl, ltb, ◌==◌,
  if◌then◌else◌, length, take, drop, length-take, length-drop, count, count-take-drop,
  swap_elements_in, Bool-cases,
}
use uknow.Card.{Card}
use uknow.Deck.{Deck}
use uknow.Table.{Table, TableError, hand_of}
use uknow.Table.Cards.{count_cards, count_hands-insert}
use uknow.Table.Deal.{
  Rand, iota, shuffle_loop, shuffle_int_range, swap_all, distribute, shuffle_deck,
}

-- The call returns a rearrangement of the list.
abbrev pub Rearranges {ℓ} : {A : Type ℓ} → List A → Outcome TableError (List A) → Type ℓ
Rearranges {A = A} xs r =
    (ys : List A) × (r ≡ ok ys)
    × ((p : A → Bool) → count p ys ≡ count p xs)
    × (length ys ≡ length xs)

shuffle_loop-Rearranges :
    (r : Rand) (k : ℕ) (xs : List ℕ) → k ≤ length xs → Rearranges xs (shuffle_loop r k xs)
unfolding shuffle_loop
shuffle_loop-Rearranges r zero xs h = (xs, refl, (λ p. refl), refl)
shuffle_loop-Rearranges r (suc k) xs h =
    let (ys, e, c, l) =
      swap_elements_in xs (r.intn (suc k)) k (omega (arith, r.intn_lt (suc k))) (omega arith) in
    let (zs, e', c', l') = shuffle_loop-Rearranges r k ys (omega arith) in
    (zs, rw e e', (λ p. c' p ∙ c p), l' ∙ l)

length-iota : (i n : ℕ) → length (iota i n) ≡ n
unfolding iota
length-iota i zero = refl
length-iota i (suc n) = omega (arith, length-iota (i + 1) n)

shuffle_int_range-loop : (r : Rand) (n : ℕ) → shuffle_int_range r 0 n ≡ shuffle_loop r n (iota 0 n)
unfolding shuffle_int_range
shuffle_int_range-loop r zero = refl
shuffle_int_range-loop r (suc n) = ground arith

-- The shuffled indices of n places are the numbers from 0 to n - 1 in some order.
pub shuffle_int_range-Rearranges :
    (r : Rand) (n : ℕ) → Rearranges (iota 0 n) (shuffle_int_range r 0 n)
shuffle_int_range-Rearranges r n =
    rw (shuffle_int_range-loop r n)
      (shuffle_loop-Rearranges r n (iota 0 n) (omega (arith, length-iota 0 n)))

-- The test of a number that is no place of n.
abbrev outside : ℕ → ℕ → Bool
outside n x = not (ltb x n)

iota-inside : (n i k : ℕ) → i + k ≤ n → count (outside n) (iota i k) ≡ 0
unfolding iota
iota-inside n i zero h = refl
iota-inside n i (suc k) h = ground (arith, iota-inside n (i + 1) k)

swap_all-Rearranges :
    (n i : ℕ) (js : List ℕ) (d : Deck)
    → count (outside n) js ≡ 0
    → length d ≡ n
    → i + length js ≤ n
    → Rearranges d (swap_all i js d)
unfolding swap_all
swap_all-Rearranges n i [] d z l h = (d, refl, (λ p. refl), refl)
swap_all-Rearranges n i (j ∷ js) d z l h =
    let (ys, e, c, m) = swap_elements_in d i j (omega arith) (ground arith) in
    let (zs, e', c', m') =
      swap_all-Rearranges n (i + 1) js ys (ground arith) (m ∙ l) (omega arith) in
    (zs, rw e e', (λ p. c' p ∙ c p), m' ∙ m)

-- Shuffling rearranges the draw deck and leaves the rest of the table as it is.
pub shuffle_deck-Rearranges :
    (r : Rand) (t : Table)
    → (d : Deck) × (shuffle_deck r t ≡ ok (record t { draw_deck = d }))
      × ((p : Card → Bool) → count p d ≡ count p t.draw_deck)
      × (length d ≡ length t.draw_deck)
unfolding shuffle_deck
shuffle_deck-Rearranges r t =
    let n = length t.draw_deck in
    let (js, e, c, m) = shuffle_int_range-Rearranges r n in
    let (d, e', c', m') =
      swap_all-Rearranges n 0 js t.draw_deck (c (outside n) ∙ iota-inside n 0 n (omega arith)) refl
        (omega (arith, length-iota 0 n)) in
    (d, rw (e, e'), c', m')

-- What a deal of k cards to each name of the list does to a table.
pub record Dealt (k : ℕ) (order : List String) (t u : Table) : Type 0 where
  pub deck : length u.draw_deck + k * length order ≡ length t.draw_deck
  pub hand : (name : String) → count (str_eq name) order ≢ 0 → length (hand_of name u) ≡ k
  pub others : (name : String) → count (str_eq name) order ≡ 0 → hand_of name u ≡ hand_of name t
  pub cards :
      ((name : String) → count (str_eq name) order ≢ 0 → hand_of name t ≡ [])
      → ((name : String) → count (str_eq name) order ≤ 1)
      → (p : Card → Bool) → count_cards p u ≡ count_cards p t
  pub rest : u ≡ record t { draw_deck = u.draw_deck; hand_of_player = u.hand_of_player }

-- One hand of k cards.
abbrev deal_hand : ℕ → String → Table → Table
deal_hand k name t = record t {
  hand_of_player = insert name (take k t.draw_deck) t.hand_of_player;
  draw_deck = drop k t.draw_deck;
}

hand-deal_hand :
    (k : ℕ) (name other : String) (t : Table)
    → hand_of other (deal_hand k name t)
      ≡ (if str_eq name other then take k t.draw_deck else hand_of other t)
hand-deal_hand k name other t = lookup_or-insert [] name other (take k t.draw_deck) t.hand_of_player

deal_hand-cards :
    (k : ℕ) (name : String) (t : Table) (p : Card → Bool)
    → count_cards p (deal_hand k name t) + count p (hand_of name t) ≡ count_cards p t
deal_hand-cards k name t p = omega (
  arith,
  count_hands-insert p name (take k t.draw_deck) t.hand_of_player,
  count-take-drop p k t.draw_deck,
)

module _ (k : ℕ) (name : String) (order : List String) (t u : Table)
    (enough : k ≤ length t.draw_deck) (d : Dealt k order (deal_hand k name t) u) where
  length-hand : length (take k t.draw_deck) ≡ k
  length-hand = grind (arith, length-take k t.draw_deck)

  other_hand :
      (other : String)
      → str_eq other name ≡ false
      → (if str_eq name other then take k t.draw_deck else hand_of other t) ≡ hand_of other t
  other_hand other e = ground (arith, eq_iff name other, eq_iff other name)

  Dealt-deck : length u.draw_deck + k * length (name ∷ order) ≡ length t.draw_deck
  Dealt-deck = omega (arith, d.deck, length-drop k t.draw_deck, mul-suc k (length order))

  Dealt-hand :
      (other : String) → count (str_eq other) (name ∷ order) ≢ 0 → length (hand_of other u) ≡ k
  Dealt-hand other h = elim (Bool-cases (count (str_eq other) order == 0)) [
    | inl z ↦ ground (
      arith,
      d.others other (ground (arith, z)),
      hand-deal_hand k name other t,
      eq_iff name other,
      eq_iff other name,
      length-hand,
    )
    | inr s ↦ d.hand other (λ z. ground (arith, s, z))
  ]

  Dealt-others :
      (other : String) → count (str_eq other) (name ∷ order) ≡ 0 → hand_of other u ≡ hand_of other t
  Dealt-others other h =
      d.others other (omega (arith, h))
      ∙ hand-deal_hand k name other t
      ∙ other_hand other (ground (arith, h))

  Dealt-cards :
      ((other : String) → count (str_eq other) (name ∷ order) ≢ 0 → hand_of other t ≡ [])
      → ((other : String) → count (str_eq other) (name ∷ order) ≤ 1)
      → (p : Card → Bool) → count_cards p u ≡ count_cards p t
  Dealt-cards empty once p =
      d.cards
        (λ other n.
          hand-deal_hand k name other t
          ∙ other_hand other (ground (arith, once other))
          ∙ empty other (omega (arith, n)))
        (λ other. omega (arith, once other)) p
      ∙ omega (arith, deal_hand-cards k name t p, ap (count p) (empty name here))
    where
      here : count (str_eq name) (name ∷ order) ≢ 0
      here = rw eq_refl (λ z. omega arith)

  Dealt-cons : Dealt k (name ∷ order) t u
  Dealt-cons = record {
    deck = Dealt-deck;
    hand = Dealt-hand;
    others = Dealt-others;
    cards = Dealt-cards;
    rest = d.rest;
  }

-- With enough cards in the draw deck for every name of the order, every hand of the order becomes k
-- cards from the draw deck, and if these hands were empty and no name comes twice no card is lost.
pub distribute-Dealt :
    (k : ℕ) (order : List String) (t : Table)
    → k * length order ≤ length t.draw_deck
    → (u : Table) × (distribute k order t ≡ ok u) × Dealt k order t u
unfolding distribute
distribute-Dealt k [] t h = (
  t,
  refl,
  record {
    deck = omega arith;
    hand = λ name n. absurd (n refl);
    others = λ name z. refl;
    cards = λ empty once p. refl;
    rest = refl;
  },
)
distribute-Dealt k (name ∷ order) t h =
    let (u, e, d) =
      distribute-Dealt k order (deal_hand k name t)
        (omega (arith, length-drop k t.draw_deck, mul-suc k (length order))) in
    let enough : k ≤ length t.draw_deck = omega (arith, mul-suc k (length order)) in
    (u, ground (arith, e), Dealt-cons k name order t u enough d)
