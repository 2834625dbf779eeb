-- ===== src/Card/Printing.antt =====
-- uknow.go: how numbers, cards and decks are printed.
use uknow.Prelude.{
  ◌-◌, String, List, [], ◌∷◌, Option, none, some, ◌==◌, leb, if◌then◌else◌, get_elem?, decimal,
  join,
}
use uknow.Card.{
  Card, Number, is_action, color_string, number_skip, number_reverse, number_draw_two, number_wild,
  number_wild_draw_four,
}

unfoldable pub number_string : Number → String
number_string n =
    if leb n 9
    then decimal n
    else if n == number_skip
    then "Skip"
    else if n == number_reverse
    then "Reverse"
    else if n == number_draw_two
    then "DrawTwo"
    else if n == number_wild
    then "Wild"
    else if n == number_wild_draw_four
    then "WildDrawFour"
    else join ("invalid_number(= " ∷ decimal n ∷ ")" ∷ [])

unfoldable pub card_string : Card → String
unfolding number_string
card_string c = join (number_string c.number ∷ " of " ∷ color_string c.color ∷ [])

abbrev pub color_symbol : List String
color_symbol = "🌈" ∷ "🔴" ∷ "💚" ∷ "🔵" ∷ "💛" ∷ []

abbrev pub action_symbol : List String
action_symbol = "⊘" ∷ "↺" ∷ "⧺" ∷ "⓪" ∷ "➍" ∷ []

-- The symbol or the text of a number.
abbrev pub number_symbol : Number → Option String
number_symbol n =
    if is_action n then get_elem? action_symbol (n - number_skip) else some (number_string n)

abbrev symbols : Option String → Option String → Option String
symbols (some color) (some number) = some (join ("⟨" ∷ color ∷ "." ∷ number ∷ "⟩" ∷ []))
symbols _ _ = none

-- `none` is the panic of a color out of range.
unfoldable pub symbol_string : Card → Option String
symbol_string c = symbols (get_elem? color_symbol c.color) (number_symbol c.number)

-- The cards with `|` between them.
unfoldable pub cards_string : List Card → String
cards_string [] = ""
cards_string (c ∷ []) = card_string c
cards_string (c ∷ d ∷ cs) = join (card_string c ∷ "|" ∷ cards_string (d ∷ cs) ∷ [])

unfoldable pub deck_string : List Card → String
deck_string [] = "[]"
deck_string (c ∷ cs) = join ("[" ∷ cards_string (c ∷ cs) ∷ "]" ∷ [])
