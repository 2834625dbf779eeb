-- ===== src/Repl/Reading.antt =====
-- What the parser of commands accepts and refuses.
use Prim.Native.String.{◌∷◌ as char_cons}
use Prim.Native.Char.{Char, code}
use uknow.Prelude.{
  ℕ, ◌≡◌, ◌≢◌, refl, false, none, some, String, List, [], ◌∷◌, ◌++◌, ok, err, arith, to_lower,
  strip, atoi, ltb, Bool-cases, Option-cases, inl, inr,
}
use uknow.Card.{Card}
use uknow.Repl.{
  Token, ParseError, invalid_count, ident, int, other, eof, expected_connect, expected_eof,
}
use uknow.Repl.Printing.{
  Droppable, AllDroppable, card_tokens, color_tokens, number_token, all_read, text-number_token,
}
use uknow.Repl.Commands.{
  parse_command_from_input, parse_to_eof, parse_command, parse_word, parse_drop, parse_drop_from,
  parse_draw, drop_command, at_eof, parse_connect_command, connect_address,
}

parse_drop-number_token :
    (player_name : String) (n : ℕ) (rest : List Token)
    → parse_drop player_name (number_token n ∷ rest)
      ≡ parse_drop_from player_name (number_token n) rest
unfolding parse_drop
parse_drop-number_token player_name n rest = ground arith

parse_drop_from-cards :
    (player_name : String) (c : Card) (cs : List Card)
    → Droppable c
    → AllDroppable cs
    → parse_drop_from player_name (number_token c.number) (color_tokens c ++ card_tokens cs)
      ≡ ok (eof, drop_command player_name (c ∷ cs))
unfolding parse_drop_from
parse_drop_from-cards player_name c cs d ds =
    ground (arith, text-number_token c.number, all_read cs ds [] c d)

-- A `drop` command of one card or more, written as words, is read back as these cards in this order.
pub parse-card_tokens :
    (input player_name : String) (c : Card) (cs : List Card)
    → Droppable c
    → AllDroppable cs
    → parse_command_from_input input (ident "drop" ∷ card_tokens (c ∷ cs)) player_name
      ≡ ok (drop_command player_name (c ∷ cs))
unfolding parse_command_from_input parse_to_eof parse_command parse_word to_lower
parse-card_tokens input player_name c cs d ds =
    rw (parse_drop-number_token, parse_drop_from-cards player_name c cs d ds) refl

-- Nothing may follow the word `draw`, not even the count of cards that it takes.
pub draw_takes_no_count :
    (input player_name : String) (t : Token) (rest : List Token)
    → at_eof t ≡ false
    → (e : ParseError) × (parse_command_from_input input (ident "draw" ∷ t ∷ rest) player_name
        ≡ err e)
unfolding parse_command_from_input parse_to_eof parse_command parse_word to_lower parse_draw
draw_takes_no_count input player_name (ident text) rest e = (_, refl)
draw_takes_no_count input player_name (other text) rest e = (_, refl)
draw_takes_no_count input player_name eof rest e = cc
draw_takes_no_count input player_name (int text) rest e = elim (Option-cases (atoi text)) [
  | inl n ↦ (invalid_count text, ground (arith, n))
  | inr (k, q) ↦ elim (Bool-cases (ltb 9 k)) [
    | inl b ↦ (invalid_count text, ground (arith, q, b))
    | inr b ↦ (expected_eof, ground (arith, q, b))
  ]
]

no_backslash : (c : Char) (s : String) → code c ≢ 92 → strip "\\s" (char_cons c s) ≡ none
unfolding strip
no_backslash c s n = ground (arith, n)

-- The word `connect` with anything but a backslash behind it, a blank and an address included, is
-- refused.
pub connect_refused :
    (input player_name : String) (rest : List Token) (c : Char) (s : String)
    → strip "connect" input ≡ some (char_cons c s)
    → code c ≢ 92
    → parse_command_from_input input (ident "connect" ∷ rest) player_name ≡ err expected_connect
unfolding parse_command_from_input parse_connect_command connect_address
connect_refused input player_name rest c s e n = ground (arith, e, no_backslash c s n)
