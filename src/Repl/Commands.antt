-- ===== src/Repl/Commands.antt =====
-- player_client/repl_command.go: `parseCommand`, `parseConnectCommand` and `ParseCommandFromInput`.
use Prim.Native.String.{◌++◌ as concat, ◌∷◌ as char_cons, [] as no_text}
use Prim.Native.Char.{Char, code}
use uknow.Prelude.{
  ℕ, Bool, true, false, not, Option, none, some, String, List, [], ◌∷◌, Outcome, ok, err, ◌>>=◌,
  ◌>>◌, ◌&&◌, ◌||◌, leb, or_err, guard, str_eq, ltb, ◌==◌, if◌then◌else◌, to_lower, atoi, strip,
}
use uknow.Card.{Card}
use uknow.Repl.{
  ReplCommandKind, ReplCommand, Token, ParseError, ident, int, other, eof, token_text, scan,
  new_repl_command, color_data, address, get_color_from_string, parse_card_sequence,
  cmd_declare_ready, cmd_quit, cmd_connect, cmd_table_summary, cmd_dump_draw_deck, cmd_show_hand,
  cmd_drop_card, cmd_draw_card, cmd_pass, cmd_draw_card_from_pile, cmd_set_wild_card_color,
  cmd_no_challenge, cmd_challenge, expected_main_command, expected_number_or_action, expected_count,
  invalid_count, missing_count, bad_count, expected_color_argument, invalid_color, expected_connect,
  expected_eof,
}

-- A command without an argument: the next token is scanned.
abbrev plain : ReplCommandKind → String → List Token → Outcome ParseError (Token × ReplCommand)
plain kind player_name rest = ok (scan rest, new_repl_command kind player_name)

abbrev pub draw_command : ℕ → String → ReplCommand
draw_command n player_name = record (new_repl_command cmd_draw_card player_name) { count = n }

-- The token returned after a count is the count.
unfoldable pub parse_draw : String → Token → Outcome ParseError (Token × ReplCommand)
parse_draw player_name eof = ok (eof, draw_command 1 player_name)
parse_draw player_name (int text) = do
  number ← or_err (atoi text) (invalid_count text)
  guard (not (ltb 9 number)) (invalid_count text)
  ok (int text, draw_command number player_name)
parse_draw player_name (ident text) = err (expected_count text)
parse_draw player_name (other text) = err (expected_count text)

abbrev pub drop_command : String → List Card → ReplCommand
drop_command player_name cards = record (new_repl_command cmd_drop_card player_name) {
  cards = cards;
}

-- The card sequence of a drop begins at the first token.
unfoldable pub parse_drop_from :
    String → Token → List Token → Outcome ParseError (Token × ReplCommand)
parse_drop_from player_name t rest = do
  (tok, cards) ← parse_card_sequence [] (token_text t) rest
  ok (tok, drop_command player_name cards)

unfoldable pub parse_drop : String → List Token → Outcome ParseError (Token × ReplCommand)
parse_drop player_name (int text ∷ rest) = parse_drop_from player_name (int text) rest
parse_drop player_name (ident text ∷ rest) = parse_drop_from player_name (ident text) rest
parse_drop player_name tokens = err (expected_number_or_action (token_text (scan tokens)))

unfoldable pub parse_wild_color : String → List Token → Outcome ParseError (Token × ReplCommand)
parse_wild_color player_name (ident text ∷ rest) = do
  color ← or_err (get_color_from_string text) (invalid_color text)
  ok (
    scan rest,
    record (new_repl_command cmd_set_wild_card_color player_name) { extra_data = color_data color },
  )
parse_wild_color player_name tokens = err expected_color_argument

unfoldable pub parse_dump : String → List Token → Outcome ParseError (Token × ReplCommand)
parse_dump player_name (int text ∷ rest) = do
  number ← or_err (atoi text) (bad_count text)
  ok (scan rest, record (new_repl_command cmd_dump_draw_deck player_name) { count = number })
parse_dump player_name tokens = err (missing_count (token_text (scan tokens)))

-- The `switch` on the main command.
unfoldable pub parse_word :
    String → String → String → List Token → Outcome ParseError (Token × ReplCommand)
parse_word player_name text word rest =
    if str_eq word "ready"
    then plain cmd_declare_ready player_name rest
    else if str_eq word "draw"
    then parse_draw player_name (scan rest)
    else if str_eq word "drawpile"
    then plain cmd_draw_card_from_pile player_name rest
    else if str_eq word "drop"
    then parse_drop player_name rest
    else if str_eq word "wild_color"
    then parse_wild_color player_name rest
    else if str_eq word "quit"
    then plain cmd_quit player_name rest
    else if str_eq word "challenge"
    then plain cmd_challenge player_name rest
    else if str_eq word "no_challenge"
    then plain cmd_no_challenge player_name rest
    else if str_eq word "pass"
    then plain cmd_pass player_name rest
    else if str_eq word "connect_default"
    then plain cmd_connect player_name rest
    else if str_eq word "conndef"
    then plain cmd_connect player_name rest
    else if str_eq word "table_summary"
    then plain cmd_table_summary player_name rest
    else if str_eq word "dump_drawdeck"
    then parse_dump player_name rest
    else if str_eq word "show_hand"
    then plain cmd_show_hand player_name rest
    else err (expected_main_command text)

unfoldable pub parse_command : String → List Token → Outcome ParseError (Token × ReplCommand)
parse_command player_name (ident text ∷ rest) = parse_word player_name text (to_lower text) rest
parse_command player_name tokens = err (expected_main_command (token_text (scan tokens)))

-- No line break, which `.` does not match.
abbrev one_line : String → Bool
one_line no_text = true
one_line (char_cons c s) = if code c == 10 then false else one_line s

-- `s+(.+)`, behind at least one `s` that was read: as many of them as leave something over.
unfoldable pub after_s : String → Option String
after_s no_text = none
after_s (char_cons c s) =
    let longer = after_s s in
    if code c == 115
    then elim longer [ none ↦ some (char_cons c s) | some t ↦ some t ]
    else some (char_cons c s)

-- The raw string of the regular expression holds two backslashes, which match one backslash: behind
-- `connect` it asks for a backslash and one letter `s` or more, where blanks were meant.
unfoldable pub connect_address : String → Option String
connect_address input = elim (strip "connect" input) [
  | none ↦ none
  | some t ↦ elim (strip "\\s" t) [ none ↦ none | some u ↦ if one_line u then after_s u else none ]
]

abbrev with_scheme : String → String
with_scheme addr = elim (strip "http://" addr) [ none ↦ concat "http://" addr | some _ ↦ addr ]

unfoldable pub parse_connect_command : String → String → Outcome ParseError ReplCommand
parse_connect_command input player_name = do
  addr ← or_err (connect_address input) expected_connect
  ok (record (new_repl_command cmd_connect player_name) { extra_data = address (with_scheme addr) })

abbrev pub at_eof : Token → Bool
at_eof eof = true
at_eof _ = false

unfoldable pub parse_to_eof : String → List Token → Outcome ParseError ReplCommand
parse_to_eof player_name tokens = do
  (tok, command) ← parse_command player_name tokens
  guard (at_eof tok) expected_eof
  ok command

abbrev is_connect : Token → Bool
is_connect (ident text) = str_eq text "connect"
is_connect _ = false

-- The input without the blanks around it, and its tokens.
unfoldable pub parse_command_from_input :
    String → List Token → String → Outcome ParseError ReplCommand
parse_command_from_input input tokens player_name =
    if is_connect (scan tokens)
    then parse_connect_command input player_name
    else parse_to_eof player_name tokens

-- The regular expression of `IsUserNameAllowed`: letters of ASCII and underscores, one at least.
abbrev is_name_char : Char → Bool
is_name_char c =
    leb 65 (code c) && leb (code c) 90 || leb 97 (code c) && leb (code c) 122 || code c == 95

unfoldable pub is_user_name_allowed : String → Bool
is_user_name_allowed no_text = false
is_user_name_allowed (char_cons c no_text) = is_name_char c
is_user_name_allowed (char_cons c (char_cons d s)) =
    is_name_char c && is_user_name_allowed (char_cons d s)
