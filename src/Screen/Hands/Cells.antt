-- ===== src/Screen/Hands/Cells.antt =====
-- The symbols of cards in the text of the hand and in the cells of the pile.
use uknow.Prelude.{
  ℕ, ◌+◌, ◌-◌, ◌≤◌, ◌≡◌, ◌≢◌, refl, sym, ◌∙◌, inl, inr, Bool, false, String, List, [], ◌∷◌, none,
  some, arith, ltb, length, length-set, count, drop, some_of, set, get_elem?_in, get_elem?,
  get_elem?-set_at, ap, ◌<◌, zero, suc, Bool-cases,
}
use uknow.Card.{Card, Number, is_action, number_skip}
use uknow.Card.Printing.{symbol_string, number_symbol, color_symbol, action_symbol, number_string}
use uknow.Deck.{Deck}
use uknow.Screen.{num_cards_to_show_in_pile}
use uknow.Screen.Hands.{hand_text, fill_cells}

-- A card whose color has no symbol.
abbrev pub is_colorless : Card → Bool
is_colorless c = ltb 4 c.color

-- Every card of the deck has a color.
abbrev pub AllColored : Deck → Type 0
AllColored d = count is_colorless d ≡ 0

number_symbol-some : (n : Number) → (text : String) × (number_symbol n ≡ some text)
number_symbol-some n = elim (Bool-cases (is_action n)) [
  | inl a ↦
      let (text, e) = get_elem?_in action_symbol (n - number_skip) (ground (arith, a)) in
      (text, ground (arith, a, e))
  | inr a ↦ (number_string n, ground (arith, a))
]

symbol_string-some : (c : Card) → is_colorless c ≡ false → symbol_string c ≢ none
unfolding symbol_string
symbol_string-some c e =
    let (color, ce) = get_elem?_in color_symbol c.color (ground (arith, e)) in
    let (number, ne) = number_symbol-some c.number in λ z. ground (arith, ce, ne, z)

pub hand_text-some : (d : Deck) → AllColored d → hand_text d ≢ none
unfolding hand_text
hand_text-some [] h = λ e. ground (arith, e)
hand_text-some (c ∷ d) h = λ e. ground (arith, hand_text-some d, symbol_string-some c)

-- Each cell from the last one down shows one of the cards.
abbrev pub CellsShow : List Card → List String → Type 0
CellsShow cards cells =
    (i : ℕ) (c : Card)
    → get_elem? cards i ≡ some c
    → get_elem? cells (length cells - i - 1) ≡ symbol_string c

-- What filling the cells from the i-th on leaves of them.
pub record Filled (cs : List Card) (i : ℕ) (cells : List String) : Type 0 where
  pub filled : List String
  pub returns : fill_cells cs i cells ≡ some filled
  pub size : length filled ≡ length cells
  pub others : (p : ℕ) → length cells ≤ p + i → get_elem? filled p ≡ get_elem? cells p
  pub shown :
      (j : ℕ) (c : Card)
      → get_elem? cs j ≡ some c
      → get_elem? filled (length cells - (i + j) - 1) ≡ symbol_string c

module _ (c : Card) (cs : List Card) (i : ℕ) (cells : List String) (text : String)
    (t : symbol_string c ≡ some text) (room : i < length cells)
    (rest : Filled cs (i + 1) (set cells (length cells - i - 1) text)) where
  below : length cells - i - 1 < length cells
  below = omega (arith, room)

  same_size : length (set cells (length cells - i - 1) text) ≡ length cells
  same_size = length-set cells (length cells - i - 1) text

  Filled-others : (p : ℕ) → length cells ≤ p + i → get_elem? rest.filled p ≡ get_elem? cells p
  Filled-others p h =
      rest.others p (omega (arith, h, same_size))
      ∙ ground (arith, get_elem?-set_at cells (length cells - i - 1) p text below, h, room)

  Filled-shown :
      (j : ℕ) (d : Card)
      → get_elem? (c ∷ cs) j ≡ some d
      → get_elem? rest.filled (length cells - (i + j) - 1) ≡ symbol_string d
  Filled-shown zero d e =
      let at = length cells - (i + 0) - 1 in
      let same : c ≡ d = ground (arith, e) in
      rest.others at (omega (arith, same_size, room))
      ∙ ground (arith, get_elem?-set_at cells (length cells - i - 1) at text below, room)
      ∙ sym t
      ∙ ap symbol_string same
  Filled-shown (suc j) d e =
      ap (get_elem? rest.filled) (omega (arith, same_size)) ∙ rest.shown j d e

  Filled-cons : Filled (c ∷ cs) i cells
  unfolding fill_cells
  Filled-cons = record {
    filled = rest.filled;
    returns = ground (arith, t, room, rest.returns);
    size = rest.size ∙ same_size;
    others = Filled-others;
    shown = Filled-shown;
  }

pub fill_cells-Filled :
    (cs : List Card) (i : ℕ) (cells : List String)
    → AllColored cs
    → i + length cs ≤ length cells
    → Filled cs i cells
unfolding fill_cells
fill_cells-Filled [] i cells h room = record {
  filled = cells;
  returns = refl;
  size = refl;
  others = λ p h. refl;
  shown = λ j c e. ground (arith, e);
}
fill_cells-Filled (c ∷ cs) i cells h room =
    let (text, t) = some_of (symbol_string c) (symbol_string-some c (ground (arith, h))) in
    Filled-cons c cs i cells text t (omega (arith, room)) (
      fill_cells-Filled cs (i + 1) (set cells (length cells - i - 1) text) (ground (arith, h))
        (omega (arith, room, length-set cells (length cells - i - 1) text)))

pub Filled-CellsShow :
    (cs : List Card) (cells : List String) (f : Filled cs 0 cells) → CellsShow cs f.filled
Filled-CellsShow cs cells f i c e = ap (get_elem? f.filled) (omega (arith, f.size)) ∙ f.shown i c e

-- The cards of the pile that have a cell.
abbrev pub cards_shown : Deck → Deck
cards_shown pile = drop (length pile - num_cards_to_show_in_pile) pile
