-- ===== src/Table/Printing.antt =====
-- uknow.go: what a table prints, and `SetIndexOfPlayer`. The names come in the order in which the map
-- is ranged over; `%d` of a direction writes its sign.
use uknow.Prelude.{
  ℕ, zero, suc, ◌+◌, ◌-◌, String, List, [], ◌∷◌, Option, none, some, Outcome, ok, err, panic, ltb,
  lookup, lookup_or, insert, set, length, get_elem?, if◌then◌else◌, join, decimal,
}
use uknow.Prelude.Int.{ℤ, pos, negsuc}
use uknow.Card.{color_string}
use uknow.Card.Printing.{card_string, number_string}
use uknow.Deck.{Deck, Sorter}
use uknow.Table.{
  Table, TableState, hand_of, start_of_turn, awaiting_drop_or_pass,
  awaiting_wild_card_color_decision, awaiting_wild_draw4_card_color_decision,
  awaiting_wild_draw4_challenge_decision, have_winner,
}

abbrev print_cards : Deck → String
print_cards [] = ""
print_cards (c ∷ d) = join ("- " ∷ card_string c ∷ "\n" ∷ print_cards d ∷ [])

unfoldable pub print_hands : Sorter → List String → Table → String
print_hands s [] t = ""
print_hands s (name ∷ names) t = join (
    "---- "
    ∷ name
    ∷ " ----\n"
    ∷ print_cards (s.sort_deck (hand_of name t))
    ∷ print_hands s names t
    ∷ [])

-- `%02d`
abbrev two_digits : ℕ → String
two_digits n = if ltb n 10 then join ("0" ∷ decimal n ∷ []) else decimal n

-- The k cards from the one that is i-th from the end on. `none` is an index out of range.
unfoldable pub print_from_end : ℕ → ℕ → Deck → Option String
print_from_end zero i d = some ""
print_from_end (suc k) i d = elim (get_elem? d (length d - i)) [
  | none ↦ none
  | some c ↦ elim (print_from_end k (i + 1) d) [
    | none ↦ none
    | some rest ↦ some (join (two_digits i ∷ ": " ∷ card_string c ∷ "\n" ∷ rest ∷ []))
  ]
]

unfoldable pub print_draw_deck : ℤ → Table → Option String
unfolding print_from_end
print_draw_deck (pos count) t =
    print_from_end (if ltb (length t.draw_deck) count then length t.draw_deck else count) 1
      t.draw_deck
print_draw_deck (negsuc _) t = some ""

abbrev state_string : TableState → String
state_string start_of_turn = "start_of_turn"
state_string awaiting_drop_or_pass = "awaiting_drop_or_pass"
state_string awaiting_wild_card_color_decision = "awaiting_wild_card_color_choice"
state_string awaiting_wild_draw4_card_color_decision = "awaiting_wild_draw4_card_color_choice"
state_string awaiting_wild_draw4_challenge_decision = "awaiting_wild_draw_4_challenge_choice"
state_string have_winner = "have_winner"

abbrev direction_string : ℤ → String
direction_string (pos n) = decimal n
direction_string (negsuc n) = join ("-" ∷ decimal (suc n) ∷ [])

-- A name with the number of its cards and its index.
unfoldable pub hand_count_lines : List String → Table → String
hand_count_lines [] t = ""
hand_count_lines (name ∷ names) t = join (
    name
    ∷ ": "
    ∷ decimal (length (hand_of name t))
    ∷ ", "
    ∷ decimal (lookup_or 0 name t.index_of_player)
    ∷ "\n"
    ∷ hand_count_lines names t
    ∷ [])

-- At most k cards, the last one first. The top of a pile is its last card.
unfoldable pub pile_top : ℕ → ℕ → Deck → String
pile_top zero i d = ""
pile_top (suc k) i d =
    let rest = pile_top k (i + 1) d in
    if ltb (length d) i then "" else elim (get_elem? d (length d - i)) [
      | none ↦ ""
      | some c ↦ join (card_string c ∷ "\n" ∷ rest ∷ [])
    ]

unfoldable pub summary : List String → Table → String
unfolding hand_count_lines pile_top
summary names t = join (
    "DrawDeck count: "
    ∷ decimal (length t.draw_deck)
    ∷ "\nDiscardedPile count: "
    ∷ decimal (length t.discarded_pile)
    ∷ "\nHand counts, Index:\n----------\n"
    ∷ hand_count_lines names t
    ∷ "Shuffler: "
    ∷ t.shuffler_name
    ∷ "\nPlayer of last turn: "
    ∷ t.player_of_last_turn
    ∷ "\nPlayer of current turn: "
    ∷ t.player_of_next_turn
    ∷ "\nDirection: "
    ∷ direction_string t.direction
    ∷ "\nRequiredColor: "
    ∷ color_string t.required_color_of_current_turn
    ∷ "\nRequiredNumber: "
    ∷ number_string t.required_number_of_current_turn
    ∷ "\nRequiredColorOfLastTurn: "
    ∷ color_string t.required_color_of_last_turn
    ∷ "\nRequiredNumberOfLastTurn: "
    ∷ number_string t.required_number_of_last_turn
    ∷ "\nTableState: "
    ∷ state_string t.table_state
    ∷ "\nDiscard pile top:\n----------\n"
    ∷ pile_top 6 1 t.discarded_pile
    ∷ "\n"
    ∷ [])

-- A name that the table does not have is an error; an index that is no seat panics. The entries come
-- in the order in which the map is ranged over; the error leaves those before it.
unfoldable pub set_index_of_player : List (String × ℕ) → Table → Outcome String (Unit {0}) × Table
set_index_of_player [] t = (ok tt, t)
set_index_of_player ((name, index) ∷ entries) t = elim (lookup name t.index_of_player) [
  | none ↦ (err (join ("player " ∷ name ∷ " does not exist in table" ∷ [])), t)
  | some _ ↦
      let u = record t { index_of_player = insert name index t.index_of_player } in
      if ltb index (length t.player_names)
      then set_index_of_player entries (record u { player_names = set t.player_names index name })
      else (panic, u)
]
