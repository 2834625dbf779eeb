-- ===== src/Deck/Full.antt =====
-- The deck of a new game: which cards it has, and how many.
use uknow.Prelude.{
  ℕ, zero, suc, ◌+◌, ◌≡◌, sym, ap₂, ◌∙◌, Bool, true, false, ◌&&◌, ◌++◌, arith, ltb, leb, ◌==◌,
  if◌then◌else◌, length, count, count-all, count-append,
}
use uknow.Card.{Card, is_equal, is_wild}
use uknow.Deck.{
  Sorter, cards_from, colored_from, zeros_from, wilds, unsorted_full_deck, new_full_deck,
}

-- How many copies of a card a game of UNO has.
abbrev pub copies : Card → ℕ
copies c =
    if c.color == 0
    then (if is_wild c then 4 else 0)
    else if ltb 4 c.color
    then 0
    else if c.number == 0
    then 1
    else if leb c.number 12
    then 2
    else 0

abbrev between : ℕ → ℕ → ℕ → Bool
between lo n hi = leb lo n && ltb n hi

abbrev times : Bool → ℕ
times true = 1
times false = 0

count-cards_from :
    (c : Card) (n k col : ℕ)
    → count (is_equal c) (cards_from n k col) ≡ times (c.color == col && between n c.number (n + k))
unfolding cards_from
count-cards_from c n zero col = ground arith
count-cards_from c n (suc k) col = ground (arith, count-cards_from c (n + 1) k col)

between-suc :
    (x col k : ℕ) (b : Bool)
    → times (x == col && b) + times (between (col + 1) x (col + 1 + k) && b)
      ≡ times (between col x (col + suc k) && b)
between-suc x col k b = ground arith

count-colored_from :
    (c : Card) (col k : ℕ)
    → count (is_equal c) (colored_from col k)
      ≡ times (between col c.color (col + k) && between 1 c.number 13)
unfolding colored_from
count-colored_from c col zero = ground arith
count-colored_from c col (suc k) =
    count-append (is_equal c) (cards_from 1 12 col) (colored_from (col + 1) k)
    ∙ ap₂ ◌+◌ (count-cards_from c 1 12 col) (count-colored_from c (col + 1) k)
    ∙ between-suc c.color col k (between 1 c.number 13)

count-zeros_from :
    (c : Card) (col k : ℕ)
    → count (is_equal c) (zeros_from col k)
      ≡ times (between col c.color (col + k) && (c.number == 0))
unfolding zeros_from
count-zeros_from c col zero = ground arith
count-zeros_from c col (suc k) = ground (arith, count-zeros_from c (col + 1) k)

count-wilds :
    (c : Card) (k : ℕ) → count (is_equal c) (wilds k) ≡ (if c.color == 0 && is_wild c then k else 0)
unfolding wilds
count-wilds c zero = ground arith
count-wilds c (suc k) = ground (arith, count-wilds c k)

copies_parts :
    (c : Card)
    → times (between 1 c.color 5 && between 1 c.number 13)
        + times (between 1 c.color 5 && between 1 c.number 13)
        + times (between 1 c.color 5 && (c.number == 0))
        + (if c.color == 0 && is_wild c then 4 else 0)
      ≡ copies c
copies_parts c = ground arith

count-unsorted_full_deck : (c : Card) → count (is_equal c) unsorted_full_deck ≡ copies c
unfolding unsorted_full_deck
count-unsorted_full_deck c =
    count-append (is_equal c) ((colored_from 1 4 ++ colored_from 1 4) ++ zeros_from 1 4) (wilds 4)
    ∙ ap₂ ◌+◌
        (count-append (is_equal c) (colored_from 1 4 ++ colored_from 1 4) (zeros_from 1 4)
          ∙ ap₂ ◌+◌
              (count-append (is_equal c) (colored_from 1 4) (colored_from 1 4)
                ∙ ap₂ ◌+◌ (count-colored_from c 1 4) (count-colored_from c 1 4))
              (count-zeros_from c 1 4))
        (count-wilds c 4)
    ∙ copies_parts c

count-new_full_deck_eq : (s : Sorter) (c : Card) → count (is_equal c) (new_full_deck s) ≡ copies c
unfolding new_full_deck
count-new_full_deck_eq s c =
    rw (s.sort_deck_counts (is_equal c) unsorted_full_deck) (count-unsorted_full_deck c)

length-new_full_deck_eq : (s : Sorter) → length (new_full_deck s) ≡ 108
unfolding new_full_deck unsorted_full_deck
length-new_full_deck_eq s =
    sym (count-all (s.sort_deck unsorted_full_deck))
    ∙ s.sort_deck_counts (λ _. true) unsorted_full_deck

-- A new deck has 108 cards: of each color one zero, two of each other number up to DrawTwo, and four
-- of each wild card; and it has no other card.
pub count-new_full_deck :
    (s : Sorter)
    → ((c : Card) → count (is_equal c) (new_full_deck s) ≡ copies c)
      × (length (new_full_deck s) ≡ 108)
count-new_full_deck s = (count-new_full_deck_eq s, length-new_full_deck_eq s)
