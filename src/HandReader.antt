-- ===== src/HandReader.antt =====
-- hand_reader/hand_reader.go: reading hands and a pile from a parsed JSON value.
-- Where the code ranges over a map, the entries come in the order of a list.
pub mod Making
pub mod Loading
use uknow.Prelude.{
  ℕ, zero, suc, ◌+◌, ◌-◌, ◌||◌, ◌&&◌, Bool, true, false, not, Option, none, some, String, StringMap,
  List, [], ◌∷◌, ◌++◌, Outcome, ok, err, panic, ◌>>=◌, ◌>>◌, or_err, guard, str_eq, ltb, leb, ◌==◌,
  if◌then◌else◌, to_lower, lookup_or, insert,
}
use uknow.Card.{
  Card, Color, Number, card, color_wild, color_red, color_blue, color_green, color_yellow,
  number_skip, number_reverse, number_draw_two, number_wild, number_wild_draw_four,
}
use uknow.Deck.{Deck}

-- A parsed JSON value. A number is not negative; one that is no
-- integer is given by its whole part.
mutual
  pub data Json : Type 0 where
    json_number : ℕ → Json
    json_fraction : ℕ → Json
    json_string : String → Json
    json_array : JsonList → Json
    json_object : JsonMap → Json
    json_null : Json

  pub data JsonList : Type 0 where
    no_item : JsonList
    item : Json → JsonList → JsonList

  pub data JsonMap : Type 0 where
    no_entry : JsonMap
    entry : String → Json → JsonMap → JsonMap

pub data ReadError : Type 0 where
  unknown_color_key unknown_special : String → ReadError
  expected_integer could_not_cast_number could_not_cast_hand : ReadError
  could_not_cast_list : String → ReadError
  could_not_cast_draw_upto could_not_cast_total : ReadError
  unexpected_json_type : ℕ → ReadError
  invalid_number expected_tuple : ℕ → ReadError
  expected_pile_array : ReadError
  could_not_remove_card : Card → ReadError
  unknown_key : String → ReadError
  expected_pile_size : ReadError
  existing_player : String → ReadError

unfoldable pub color_from_key : String → Outcome ReadError Color
color_from_key color_key =
    let t = to_lower color_key in
    if str_eq t "red"
    then ok color_red
    else if str_eq t "blue"
    then ok color_blue
    else if str_eq t "green"
    then ok color_green
    else if str_eq t "yellow"
    then ok color_yellow
    else if str_eq t "wild"
    then ok color_wild
    else err (unknown_color_key color_key)

unfoldable pub number_from_special : String → Outcome ReadError Number
number_from_special special =
    let t = to_lower special in
    if str_eq t "skip"
    then ok number_skip
    else if str_eq t "reverse"
    then ok number_reverse
    else if str_eq t "draw_2"
    then ok number_draw_two
    else if str_eq t "wild"
    then ok number_wild
    else if str_eq t "wild_draw_4"
    then ok number_wild_draw_four
    else err (unknown_special special)

-- A natural number becomes a card's number as it is, however large.
unfoldable pub try_cast_number : Json → Outcome ReadError Number
try_cast_number (json_number n) = ok n
try_cast_number (json_fraction _) = err expected_integer
try_cast_number (json_string s) = number_from_special s
try_cast_number _ = err could_not_cast_number

-- The key "total" of the object; any other key is passed over.
unfoldable pub total_of : ℕ → JsonMap → Outcome ReadError ℕ
total_of total no_entry = ok total
total_of total (entry key value rest) =
    if str_eq key "total"
    then elim value [
      | json_number n ↦ total_of n rest
      | json_fraction n ↦ total_of n rest
      | json_string _ ↦ err could_not_cast_total
      | json_array _ ↦ err could_not_cast_total
      | json_object _ ↦ err could_not_cast_total
      | json_null ↦ err could_not_cast_total
    ]
    else total_of total rest

unfoldable pub cast_draw_upto : Json → Outcome ReadError ℕ
cast_draw_upto (json_object object) = total_of 0 object
cast_draw_upto _ = err could_not_cast_draw_upto

pub record HandDesc : Type 0 where
  pub cards_of_color : List (Color × List Card)
  pub draw_upto : ℕ

-- `append(m[color], card)`, where every color may have an entry.
abbrev pub add_card : Color → Card → List (Color × List Card) → List (Color × List Card)
add_card color c [] = (color, c ∷ []) ∷ []
add_card color c ((k, cs) ∷ m) =
    if k == color then (k, cs ++ c ∷ []) ∷ m else (k, cs) ∷ add_card color c m

-- The numbers of one color.
unfoldable pub cast_numbers :
    Color → JsonList → List (Color × List Card) → Outcome ReadError (List (Color × List Card))
cast_numbers color no_item m = ok m
cast_numbers color (item value items) m = do
  number ← try_cast_number value
  cast_numbers color items (add_card color (card number color) m)

-- One entry of a hand description that is not "draw_upto".
unfoldable pub cast_entry :
    String → Json → List (Color × List Card) → Outcome ReadError (List (Color × List Card))
cast_entry key (json_array numbers) m = do color ← color_from_key key; cast_numbers color numbers m
cast_entry key _ m = do color ← color_from_key key; err (could_not_cast_list key)

unfoldable pub cast_entries : JsonMap → HandDesc → Outcome ReadError HandDesc
cast_entries no_entry desc = ok desc
cast_entries (entry key value rest) desc = elim (str_eq key "draw_upto") [
  | true ↦ do total ← cast_draw_upto value; cast_entries rest (record desc { draw_upto = total })
  | false ↦ do
    m ← cast_entry key value desc.cards_of_color
    cast_entries rest (record desc { cards_of_color = m })
]

unfoldable pub cast_hand_desc_map : Json → Outcome ReadError HandDesc
cast_hand_desc_map (json_object object) = cast_entries object (record {
  cards_of_color = (color_red, []) ∷ (color_blue, []) ∷ (color_green, []) ∷ (color_yellow, []) ∷ [];
  draw_upto = 0;
})
cast_hand_desc_map _ = err could_not_cast_hand

-- The one word of a wild card.
abbrev wild_of : ℕ → Json → Outcome ReadError Card
wild_of i (json_string name) =
    if str_eq name "wild"
    then ok (card number_wild color_wild)
    else if str_eq name "wild_draw_4"
    then ok (card number_wild_draw_four color_wild)
    else err (unexpected_json_type i)
wild_of i _ = err (unexpected_json_type i)

abbrev pile_color : ℕ → Json → Outcome ReadError Color
pile_color i (json_string name) =
    if str_eq name "red"
    then ok color_red
    else if str_eq name "blue"
    then ok color_blue
    else if str_eq name "yellow"
    then ok color_yellow
    else if str_eq name "green"
    then ok color_green
    else err (unexpected_json_type i)
pile_color i _ = err (unexpected_json_type i)

-- A fraction between 0 and 9 is rounded down.
abbrev pile_number : ℕ → Json → Outcome ReadError Number
pile_number i (json_number n) = if leb n 9 then ok n else err (invalid_number i)
pile_number i (json_fraction n) = if ltb n 9 then ok n else err (invalid_number i)
pile_number i (json_string name) =
    if str_eq name "skip"
    then ok number_skip
    else if str_eq name "reverse"
    then ok number_reverse
    else if str_eq name "draw_2"
    then ok number_draw_two
    else err (invalid_number i)
pile_number i _ = err (unexpected_json_type i)

-- The card that the item at index i describes.
unfoldable pub pile_card : ℕ → Json → Outcome ReadError Card
pile_card i (json_array (item name no_item)) = wild_of i name
pile_card i (json_array (item name (item value no_item))) = do
  color ← pile_color i name
  number ← pile_number i value
  ok (card number color)
pile_card i (json_array _) = err (expected_tuple i)
pile_card i _ = err (unexpected_json_type i)

-- The loop over the array.
unfoldable pub pile_cards : ℕ → JsonList → Deck → Outcome ReadError Deck
pile_cards i no_item pile = ok pile
pile_cards i (item value items) pile = do
  c ← pile_card i value
  pile_cards (i + 1) items (pile ++ c ∷ [])

-- The loop that exchanges the cards from both ends.
unfoldable pub reversed : Deck → Deck
reversed [] = []
reversed (c ∷ d) = reversed d ++ c ∷ []

unfoldable pub parse_preset_discard_pile_top : Json → Outcome ReadError Deck
parse_preset_discard_pile_top (json_array array) = do
  pile ← pile_cards 0 array []
  ok (reversed pile)
parse_preset_discard_pile_top _ = err expected_pile_array
