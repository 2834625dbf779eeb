-- ===== src/Table/Deal.antt =====
-- uknow.go and uknow_utils.go: shuffling the draw deck and dealing the hands.
pub mod Counts
pub mod Start
use uknow.Prelude.{
  ℕ, zero, suc, ◌+◌, ◌-◌, ◌<◌, ◌||◌, Bool, String, List, [], ◌∷◌, Outcome, ok, err, panic, or_panic,
  ◌>>=◌, insert, ltb, ◌==◌, if◌then◌else◌, length, take, drop, swap_elements,
}
use uknow.Prelude.Int.{ℤ, pos, negsuc, neg}
use uknow.Card.{Card, card, is_wild, color_red, number_reverse}
use uknow.Deck.{Deck, DeckError, swap, top, must_pop, push}
use uknow.Table.{
  Table, TableError, set_player_of_next_turn, set_required_color_fields, set_required_number,
}
use uknow.Table.Seats.{get_next_player_index, player_at}
use uknow.Table.Eval.{index_of}
use uknow.Table.Play.{deck_must}

-- `rand.Intn(n)`, whose result is one of the numbers below n. A shuffle calls it once for each n.
pub record Rand : Type 0 where
  pub intn : ℕ → ℕ
  pub intn_lt : (n : ℕ) → 0 < n → intn n < n

-- `slice[i] = i`, with the rounds that are left.
unfoldable pub iota : ℕ → ℕ → List ℕ
iota i zero = []
iota i (suc rounds) = i ∷ iota (i + 1) rounds

-- The loop that counts `end` down and exchanges the last place with a random one.
unfoldable pub shuffle_loop : Rand → ℕ → List ℕ → Outcome TableError (List ℕ)
shuffle_loop r zero slice = ok slice
shuffle_loop r (suc last) slice = do
  slice' ← or_panic (swap_elements slice (r.intn (suc last)) last)
  shuffle_loop r last slice'

-- The code passes no negative bound.
unfoldable pub shuffle_int_range : Rand → ℕ → ℕ → Outcome TableError (List ℕ)
shuffle_int_range r start end_ =
    if ltb end_ start then panic else shuffle_loop r (end_ - start) (iota 0 (end_ - start))

-- `for i, j := range shuffledIndices { t.DrawDeck.Swap(i, j) }`
unfoldable pub swap_all : ℕ → List ℕ → Deck → Outcome TableError Deck
swap_all i [] d = ok d
swap_all i (j ∷ js) d = do d' ← or_panic (swap d i j); swap_all (i + 1) js d'

-- The loop over `IndexOfPlayer`, whose keys come in the given order. Slicing the draw deck panics
-- when it holds fewer cards than a hand.
unfoldable pub distribute : ℕ → List String → Table → Outcome TableError Table
distribute starting_hand_count [] t = ok t
distribute starting_hand_count (name ∷ order) t =
    if ltb (length t.draw_deck) starting_hand_count
    then panic
    else distribute starting_hand_count order (record t {
      hand_of_player = insert name (take starting_hand_count t.draw_deck) t.hand_of_player;
      draw_deck = drop starting_hand_count t.draw_deck;
    })

-- The error of `Top` is dropped: the card is then the zero value.
abbrev pub top_or_zero : Outcome DeckError Card → Card
top_or_zero (ok c) = c
top_or_zero (err e) = card 0 0
top_or_zero panic = card 0 0

-- The first card of the pile.
unfoldable pub turn_up : Table → Outcome TableError (Card × Table)
turn_up t = do
  rest ← deck_must (must_pop t.draw_deck)
  ok (
    top_or_zero (top t.draw_deck),
    record t {
      draw_deck = rest;
      discarded_pile = push t.discarded_pile (top_or_zero (top t.draw_deck) ∷ []);
    },
  )

-- What the first card of the pile requires of the first play.
unfoldable pub require_top : Card → Table → Table
require_top top_card t =
    set_required_color_fields (if is_wild top_card then color_red else top_card.color) (record t {
      direction = if top_card.number == number_reverse then neg t.direction else t.direction;
    })

-- Who plays first.
unfoldable pub start_turns : Card → Table → Outcome TableError Table
start_turns top_card t = do
  index_of_next_player ← get_next_player_index t (index_of t.shuffler_name t) (pos 1)
  next_player ← player_at t index_of_next_player
  ok (record (set_required_number top_card.number (set_player_of_next_turn next_player t)) {
    player_of_last_turn = t.shuffler_name;
    is_shuffled = Bool.true;
  })

-- The hand count is at most 12 and not negative or zero.
abbrev hand_count : ℤ → Outcome TableError ℕ
hand_count (pos k) = if k == 0 || ltb 12 k then panic else ok k
hand_count (negsuc k) = panic

unfoldable pub shuffle_deck : Rand → Table → Outcome TableError Table
shuffle_deck r t = do
  shuffled_indices ← shuffle_int_range r 0 (length t.draw_deck)
  draw_deck ← swap_all 0 shuffled_indices t.draw_deck
  ok (record t { draw_deck = draw_deck })

unfoldable pub shuffle_deck_and_distribute :
    Rand → List String → ℤ → Table → Outcome TableError Table
shuffle_deck_and_distribute r order starting_hand_count t = do
  k ← hand_count starting_hand_count
  shuffled ← shuffle_deck r t
  dealt ← distribute k order shuffled
  (top_card, turned) ← turn_up dealt
  start_turns top_card (require_top top_card turned)
