-- ===== src/HandReader/Making.antt =====
-- hand_reader/hand_reader.go: `removeCardsFromDeck` and `makeTable`.
pub mod Piles
use uknow.Prelude.{
  ℕ, zero, suc, ◌+◌, ◌-◌, Bool, true, false, Option, none, some, String, StringMap, List, [], ◌∷◌,
  ◌++◌, Outcome, ok, err, panic, ◌>>=◌, ◌>>◌, guard, ◌==◌, if◌then◌else◌, insert, length, replicate,
  lookup_or,
}
use uknow.Card.{Card, Color, encode_uint32, must_decode_card_from_uint32, CardError}
use uknow.Deck.{Deck, DeckError, must_top, must_pop, push}
use uknow.Table.{Table, TableError, start_of_turn, add_player, hand_of, bare}
use uknow.HandReader.{HandDesc, ReadError, could_not_remove_card, existing_player}

-- `map[uint32]int`; a key that is missing has the value 0.
abbrev pub Counts : Type 0
Counts = List (ℕ × ℕ)

abbrev pub count_of : ℕ → Counts → ℕ
count_of key [] = 0
count_of key ((k, n) ∷ m) = if k == key then n else count_of key m

abbrev pub set_count : ℕ → ℕ → Counts → Counts
set_count key n [] = (key, n) ∷ []
set_count key n ((k, m) ∷ rest) =
    if k == key then (key, n) ∷ rest else (k, m) ∷ set_count key n rest

-- The loop that counts the draw deck.
unfoldable pub count_cards_from : Deck → Counts → Counts
count_cards_from [] m = m
count_cards_from (c ∷ d) m =
    count_cards_from d (set_count (encode_uint32 c) (count_of (encode_uint32 c) m + 1) m)

-- Takes one card of the counts.
unfoldable pub remove_one : Card → Counts → Outcome ReadError Counts
remove_one c m =
    if count_of (encode_uint32 c) m == 0
    then err (could_not_remove_card c)
    else ok (set_count (encode_uint32 c) (count_of (encode_uint32 c) m - 1) m)

unfoldable pub remove_cards_from_deck : List Card → Counts → Outcome ReadError Counts
remove_cards_from_deck [] m = ok m
remove_cards_from_deck (c ∷ cards) m = do m' ← remove_one c m; remove_cards_from_deck cards m'

-- The table and the counts, while hands are dealt.
abbrev Dealing : Type 0
Dealing = Table × Counts

-- The loop over the colors of a hand.
unfoldable pub give_cards : String → List (Color × List Card) → Dealing → Outcome ReadError Dealing
give_cards player_name [] (t, m) = ok (t, m)
give_cards player_name ((color, cards) ∷ rest) (t, m) = do
  m' ← remove_cards_from_deck cards m
  give_cards player_name rest (
    record t {
      hand_of_player = insert player_name (push (hand_of player_name t) cards) t.hand_of_player;
    },
    m',
  )

-- `AddPlayer`, whose error is returned.
abbrev joined : String → Table → Outcome ReadError Table
joined player_name t = elim (add_player t player_name) [
  | ok u ↦ ok u
  | err e ↦ err (existing_player player_name)
  | panic ↦ panic
]

-- The loop over the players.
unfoldable pub give_hands : List (String × HandDesc) → Dealing → Outcome ReadError Dealing
give_hands [] (t, m) = ok (t, m)
give_hands ((player_name, desc) ∷ rest) (t, m) = do
  u ← joined player_name t
  dealt ← give_cards player_name desc.cards_of_color (u, m)
  give_hands rest dealt

abbrev decoded : ℕ → Outcome ReadError Card
decoded key = elim (must_decode_card_from_uint32 key) [
  | ok c ↦ ok c
  | err e ↦ panic
  | panic ↦ panic
]

-- The new draw deck: for each key, as many copies of its card as are left. The card is only decoded
-- where there is one.
unfoldable pub rebuild : Counts → Deck → Outcome ReadError Deck
rebuild [] d = ok d
rebuild ((key, zero) ∷ m) d = rebuild m d
rebuild ((key, suc n) ∷ m) d = do c ← decoded key; rebuild m (d ++ replicate (suc n) c)

abbrev must : {A : Type 0} → Outcome DeckError A → Outcome ReadError A
must (ok a) = ok a
must (err e) = panic
must panic = panic

-- The loop that fills the pile: one round pops twice, and puts one card on the pile.
unfoldable pub fill_pile : ℕ → Deck → Deck → Outcome ReadError (Deck × Deck)
fill_pile zero draw_deck pile = ok (draw_deck, pile)
fill_pile (suc rounds) draw_deck pile = do
  c ← must (must_top draw_deck)
  popped ← must (must_pop draw_deck)
  twice ← must (must_pop popped)
  fill_pile rounds twice (push pile (c ∷ []))

pub record SerializedJson : Type 0 where
  pub hand_desc_of_player : List (String × HandDesc)
  pub discarded_pile_size : ℕ
  pub player_to_draw : String
  pub preset_discard_pile_top : Deck

-- What the code does if more cards are wanted on the pile than were preset.
unfoldable pub fill_discarded_pile : ℕ → Table → Outcome ReadError Table
fill_discarded_pile rounds t = do
  (draw_deck, pile) ← fill_pile rounds t.draw_deck []
  ok (record t { draw_deck = draw_deck; discarded_pile = pile ++ t.discarded_pile })

-- The last lines. The pile must not be empty.
unfoldable pub require_pile_top : String → Table → Outcome ReadError Table
require_pile_top player_to_draw t = do
  c ← must (must_top t.discarded_pile)
  ok (record t {
    required_color_of_current_turn = c.color;
    required_number_of_current_turn = c.number;
    is_shuffled = true;
    player_of_next_turn = player_to_draw;
    player_of_last_turn = player_to_draw;
    table_state = start_of_turn;
  })

-- The counts are ranged over in the order that `arrange` puts them in.
unfoldable pub make_table : (Counts → Counts) → SerializedJson → Table → Outcome ReadError Table
make_table arrange j t = do
  m ← remove_cards_from_deck j.preset_discard_pile_top (count_cards_from t.draw_deck [])
  let piled = record t { discarded_pile = push t.discarded_pile j.preset_discard_pile_top }
  (u, left) ← give_hands j.hand_desc_of_player (piled, m)
  draw_deck ← rebuild (arrange left) []
  v ←
      fill_discarded_pile (j.discarded_pile_size - length u.discarded_pile)
        (record u { draw_deck = draw_deck })
  require_pile_top j.player_to_draw v
