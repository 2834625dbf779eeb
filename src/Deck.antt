-- ===== src/Deck.antt =====
-- uknow.go: a deck is a slice of cards whose last card is the top.
pub mod Counts
pub mod Full
use uknow.Prelude.{
  ℕ, zero, suc, ◌+◌, ◌-◌, ◌≡◌, Bool, ◌||◌, Option, none, some, List, [], ◌∷◌, ◌++◌, Outcome, ok,
  err, panic, or_err, or_panic, ◌>>=◌, ltb, if◌then◌else◌, length, get_elem?, take, drop,
  swap_elements, count,
}
use uknow.Card.{
  Card, card, is_less_than, is_equal, color_wild, number_draw_two, number_wild,
  number_wild_draw_four,
}

abbrev pub Deck : Type 0
Deck = List Card

pub data DeckError : Type 0 where
  err_empty_deck : DeckError
  could_not_find_card could_not_remove_card : Card → DeckError

-- `sort.Sort`. Its result is a rearrangement of the slice. `Less` of a deck is no strict weak order,
-- so nothing is said of the order of the result.
pub record Sorter : Type 0 where
  pub sort_deck : Deck → Deck
  pub sort_deck_counts : (p : Card → Bool) (d : Deck) → count p (sort_deck d) ≡ count p d

abbrev pub is_empty : Deck → Bool
is_empty [] = Bool.true
is_empty (c ∷ d) = Bool.false

-- `none` is the panic of an index out of range.
unfoldable pub less : Deck → ℕ → ℕ → Option Bool
less d i j = elim (get_elem? d i) [
  | none ↦ none
  | some a ↦ elim (get_elem? d j) [ none ↦ none | some b ↦ some (is_less_than a b || ltb i j) ]
]

abbrev pub swap : Deck → ℕ → ℕ → Option Deck
swap d i j = swap_elements d i j

abbrev pub new_empty_deck : Deck
new_empty_deck = []

abbrev pub push : Deck → List Card → Deck
push d cs = d ++ cs

-- `d[len(d)-1]`
abbrev pub last_card : Deck → Option Card
last_card d = get_elem? d (length d - 1)

unfoldable pub top : Deck → Outcome DeckError Card
top d = if is_empty d then err err_empty_deck else or_panic (last_card d)

unfoldable pub must_top : Deck → Outcome DeckError Card
must_top d = if is_empty d then panic else or_panic (last_card d)

unfoldable pub pop : Deck → Outcome DeckError Deck
pop d = if is_empty d then err err_empty_deck else ok (take (length d - 1) d)

unfoldable pub must_pop : Deck → Outcome DeckError Deck
must_pop d = if is_empty d then panic else ok (take (length d - 1) d)

-- `append(d[0:index], d[index+1:]...)`
unfoldable pub remove_card : Deck → ℕ → Outcome DeckError Deck
remove_card d index =
    if ltb index (length d) then ok (take index d ++ drop (index + 1) d) else panic

-- The first index at which the card stands; the loop has passed `i` cards.
unfoldable pub find_from : ℕ → Deck → Card → Option ℕ
find_from i [] wanted = none
find_from i (c ∷ d) wanted = if is_equal c wanted then some i else find_from (i + 1) d wanted

unfoldable pub find_card : Deck → Card → Outcome DeckError ℕ
unfolding find_from
find_card d wanted = or_err (find_from 0 d wanted) (could_not_find_card wanted)

unfoldable pub find_and_remove_card : Deck → Card → Outcome DeckError Deck
unfolding find_card remove_card
find_and_remove_card d wanted = elim (find_card d wanted) [
  | ok index ↦ remove_card d index
  | err e ↦ err (could_not_remove_card wanted)
  | panic ↦ panic
]

unfoldable pub must_find_card : Deck → Card → Outcome DeckError ℕ
unfolding find_from
must_find_card d wanted = or_panic (find_from 0 d wanted)

-- The loop over `number`, with the rounds that are left.
unfoldable pub cards_from : ℕ → ℕ → ℕ → Deck
cards_from number zero color = []
cards_from number (suc rounds) color = card number color ∷ cards_from (number + 1) rounds color

-- The loop over `color` around it.
unfoldable pub colored_from : ℕ → ℕ → Deck
unfolding cards_from
colored_from color zero = []
colored_from color (suc rounds) =
    cards_from 1 number_draw_two color ++ colored_from (color + 1) rounds

unfoldable pub zeros_from : ℕ → ℕ → Deck
zeros_from color zero = []
zeros_from color (suc rounds) = card 0 color ∷ zeros_from (color + 1) rounds

unfoldable pub wilds : ℕ → Deck
wilds zero = []
wilds (suc rounds) =
    card number_wild_draw_four color_wild ∷ card number_wild color_wild ∷ wilds rounds

unfoldable pub unsorted_full_deck : Deck
unfolding colored_from zeros_from wilds
unsorted_full_deck = let cards = colored_from 1 4 in ((cards ++ cards) ++ zeros_from 1 4) ++ wilds 4

-- Declared over the sorting that it calls.
unfoldable pub new_full_deck : Sorter → Deck
new_full_deck s = s.sort_deck unsorted_full_deck
