-- ===== src/Repl.antt =====
-- player_client/repl_command.go: from the words of a command to the command.
-- A parser takes the tokens of `text/scanner`, the last one scanned first. Where it fails, the code
-- also returns the command as it is so far, which no caller reads; here there is only the error.
pub mod Commands
pub mod Printing
pub mod Reading
use uknow.Prelude.{
  ℕ, zero, suc, ◌≤◌, ◌||◌, ◌&&◌, Bool, true, false, not, Option, none, some, String, List, [], ◌∷◌,
  ◌++◌, Outcome, ok, err, panic, ◌>>=◌, ◌>>◌, or_err, guard, str_eq, ltb, leb, ◌==◌, if◌then◌else◌,
  to_lower, atoi,
}
use uknow.Prelude.Int.{pos}
use uknow.Card.{
  Card, Color, Number, card, is_wild, int_to_number, color_wild, color_red, color_blue, color_green,
  color_yellow, number_skip, number_reverse, number_draw_two, number_wild, number_wild_draw_four,
}

pub data ReplCommandKind : Type 0 where
  cmd_none cmd_ask_user_to_play cmd_declare_ready : ReplCommandKind
  cmd_quit cmd_connect cmd_table_summary cmd_dump_draw_deck cmd_show_hand : ReplCommandKind
  cmd_drop_card cmd_draw_card cmd_pass cmd_draw_card_from_pile : ReplCommandKind
  cmd_set_wild_card_color cmd_no_challenge cmd_challenge : ReplCommandKind

-- The number of the constant.
abbrev pub kind_number : ReplCommandKind → ℕ
kind_number cmd_none = 0
kind_number cmd_ask_user_to_play = 1
kind_number cmd_declare_ready = 2
kind_number cmd_quit = 3
kind_number cmd_connect = 4
kind_number cmd_table_summary = 5
kind_number cmd_dump_draw_deck = 6
kind_number cmd_show_hand = 7
kind_number cmd_drop_card = 8
kind_number cmd_draw_card = 9
kind_number cmd_pass = 10
kind_number cmd_draw_card_from_pile = 11
kind_number cmd_set_wild_card_color = 12
kind_number cmd_no_challenge = 13
kind_number cmd_challenge = 14

abbrev pub is_user_decision_command : ReplCommandKind → Bool
is_user_decision_command k =
    leb (kind_number cmd_drop_card) (kind_number k)
    && leb (kind_number k) (kind_number cmd_challenge)

-- `ExtraData`, by the types that the code puts there.
pub data ExtraData : Type 0 where
  nil : ExtraData
  color_data : Color → ExtraData
  address : String → ExtraData

pub record ReplCommand : Type 0 where
  pub cards : List Card
  pub kind : ReplCommandKind
  pub count : ℕ
  pub player_name : String
  pub target_player_name : String
  pub extra_data : ExtraData

abbrev pub new_repl_command : ReplCommandKind → String → ReplCommand
new_repl_command kind player_name = record {
  cards = [];
  kind = kind;
  count = 0;
  player_name = player_name;
  target_player_name = "";
  extra_data = nil;
}

-- What `Scan` returns, with `TokenText`.
pub data Token : Type 0 where
  ident int other : String → Token
  eof : Token

abbrev pub token_text : Token → String
token_text (ident t) = t
token_text (int t) = t
token_text (other t) = t
token_text eof = ""

abbrev pub scan : List Token → Token
scan [] = eof
scan (t ∷ rest) = t

pub data ParseError : Type 0 where
  expected_main_command expected_number_or_action expected_card_color invalid_color :
      String → ParseError
  expected_count invalid_count missing_count bad_count invalid_number : String → ParseError
  invalid_card_number : ℕ → ParseError
  expected_color_argument expected_connect expected_eof : ParseError

unfoldable pub get_color_from_string : String → Option Color
get_color_from_string s =
    let t = to_lower s in
    if str_eq t "red"
    then some color_red
    else if str_eq t "blue"
    then some color_blue
    else if str_eq t "green"
    then some color_green
    else if str_eq t "yellow"
    then some color_yellow
    else none

-- A card's number that is no action name.
unfoldable pub plain_number : String → Outcome ParseError Number
plain_number text = do
  number ← or_err (atoi text) (invalid_number text)
  _ ← guard (not (ltb 9 number)) (invalid_card_number number)
  elim (int_to_number (pos number)) [
    | ok n ↦ ok n
    | err e ↦ err (invalid_card_number number)
    | panic ↦ panic
  ]

-- The number of a card in `parseCardSequence`.
unfoldable pub card_number : String → Outcome ParseError Number
card_number token_text =
    let text = to_lower token_text in
    if str_eq text "skip"
    then ok number_skip
    else if str_eq text "rev"
    then ok number_reverse
    else if str_eq text "draw2"
    then ok number_draw_two
    else if str_eq text "wild"
    then ok number_wild
    else if str_eq text "wild4"
    then ok number_wild_draw_four
    else plain_number text

-- The color after a number.
unfoldable pub card_color : Token → Outcome ParseError Color
card_color (ident text) =
    let t = to_lower text in
    if str_eq t "red"
    then ok color_red
    else if str_eq t "green"
    then ok color_green
    else if str_eq t "blue"
    then ok color_blue
    else if str_eq t "yellow"
    then ok color_yellow
    else err (expected_card_color text)
card_color (int text) = err (expected_card_color text)
card_color (other text) = err (expected_card_color text)
card_color eof = err (expected_card_color "")

-- A word after a card starts another card; anything else ends the sequence.
abbrev pub resume :
    Token
    → List Card
    → Outcome ParseError (Token × List Card)
    → Outcome ParseError (Token × List Card)
resume (ident _) cards more = more
resume (int _) cards more = more
resume (other text) cards more = ok (other text, cards)
resume eof cards more = ok (eof, cards)

-- `parseCardSequence`, with the number's text and the tokens behind it.
unfoldable pub parse_card_sequence :
    List Card → String → List Token → Outcome ParseError (Token × List Card)
parse_card_sequence cards text [] = do
  number ← card_number text
  if is_wild (card number 0)
      then ok (eof, cards ++ card number 0 ∷ [])
      else err (expected_card_color "")
parse_card_sequence cards text (t ∷ []) = do
  number ← card_number text
  elim (is_wild (card number 0)) [
    | true ↦
        let more = cards ++ card number 0 ∷ [] in
        resume t more (parse_card_sequence more (token_text t) [])
    | false ↦ do color ← card_color t; ok (eof, cards ++ card number color ∷ [])
  ]
parse_card_sequence cards text (t ∷ u ∷ rest) = do
  number ← card_number text
  elim (is_wild (card number 0)) [
    | true ↦
        let more = cards ++ card number 0 ∷ [] in
        resume t more (parse_card_sequence more (token_text t) (u ∷ rest))
    | false ↦ do
      color ← card_color t
      resume u (cards ++ card number color ∷ [])
          (parse_card_sequence (cards ++ card number color ∷ []) (token_text u) rest)
  ]
