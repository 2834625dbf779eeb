-- ===== src/Card.antt =====
-- uknow.go and card_hash.go: numbers, colors and cards, and a card packed into 32 bits.
-- A `Number` and a `Color` are Go ints; here they are natural numbers.
pub mod Codec
pub mod Printing
use uknow.Prelude.{
  ℕ, ◌+◌, ◌-◌, ◌*◌, ◌/◌, ◌%◌, ◌^◌, Bool, ◌&&◌, ◌||◌, Outcome, ok, err, panic, String, ltb, leb,
  ◌==◌, if◌then◌else◌,
}
use uknow.Prelude.Int.{ℤ, pos, negsuc}
use Prim.Native.Nat.{bit_and, bit_or}

abbrev pub Number : Type 0
Number = ℕ

abbrev pub Color : Type 0
Color = ℕ

abbrev pub number_skip : Number
number_skip = 10

abbrev pub number_reverse : Number
number_reverse = 11

abbrev pub number_draw_two : Number
number_draw_two = 12

abbrev pub number_wild : Number
number_wild = 13

abbrev pub number_wild_draw_four : Number
number_wild_draw_four = 14

abbrev pub color_wild : Color
color_wild = 0

abbrev pub color_red : Color
color_red = 1

abbrev pub color_green : Color
color_green = 2

abbrev pub color_blue : Color
color_blue = 3

abbrev pub color_yellow : Color
color_yellow = 4

pub record Card : Type 0 where
  pub number : Number
  pub color : Color

abbrev pub card : Number → Color → Card
card n c = record { number = n; color = c }

abbrev pub is_less_than : Card → Card → Bool
is_less_than c c1 = ltb c.color c1.color || ltb c.number c1.number

abbrev pub is_equal : Card → Card → Bool
is_equal c c1 = c.color == c1.color && c.number == c1.number

abbrev pub is_action : Number → Bool
is_action num = leb number_skip num && leb num number_wild_draw_four

abbrev pub is_wild : Card → Bool
is_wild c = c.number == number_wild || c.number == number_wild_draw_four

pub data CardError : Type 0 where
  invalid_card_number : ℤ → CardError
  err_invalid_card_color err_invalid_card_number : CardError

unfoldable pub int_to_number : ℤ → Outcome CardError Number
int_to_number (pos n) =
    if leb n number_wild_draw_four then ok n else err (invalid_card_number (pos n))
int_to_number (negsuc n) = err (invalid_card_number (negsuc n))

unfoldable pub color_string : Color → String
color_string c =
    if c == 1
    then "red"
    else if c == 2
    then "green"
    else if c == 3
    then "blue"
    else if c == 4
    then "yellow"
    else if c == 0
    then "wild"
    else "invalid_color"

-- [unused bits][5 bits for number][4 bits for color]
abbrev pub number_bits_count : ℕ
number_bits_count = 5

abbrev pub color_bits_count : ℕ
color_bits_count = 4

abbrev pub u32 : ℕ → ℕ
u32 x = x % 2 ^ 32

abbrev pub number_mask : ℕ
number_mask = u32 ((2 ^ number_bits_count - 1) * 2 ^ color_bits_count)

abbrev pub color_mask : ℕ
color_mask = 2 ^ color_bits_count - 1

unfoldable pub encode_uint32 : Card → ℕ
encode_uint32 c = bit_or (u32 (u32 c.number * 2 ^ color_bits_count)) (u32 c.color)

unfoldable pub decode_card_from_uint32 : ℕ → Outcome CardError Card
decode_card_from_uint32 x =
    let color : ℕ = bit_and x color_mask in
    let number : ℕ = bit_and x number_mask / 2 ^ color_bits_count in
    if ltb color_yellow color
    then err err_invalid_card_color
    else if ltb number_wild_draw_four number
    then err err_invalid_card_number
    else ok (card number color)

pub must_decode_card_from_uint32 : ℕ → Outcome CardError Card
unfolding decode_card_from_uint32
must_decode_card_from_uint32 x = elim (decode_card_from_uint32 x) [
  | ok c ↦ ok c
  | err e ↦ panic
  | panic ↦ panic
]

unfoldable pub hash : Card → ℕ
unfolding encode_uint32
hash c = encode_uint32 c
