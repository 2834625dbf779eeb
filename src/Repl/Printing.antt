-- ===== src/Repl/Printing.antt =====
-- Cards written as the words of a `drop` command, and read back.
use uknow.Prelude.{
  ℕ, zero, suc, ◌≤◌, ◌≡◌, refl, ap, ◌∙◌, true, false, String, List, [], ◌∷◌, ◌++◌, Outcome, ok,
  arith, if◌then◌else◌, leb, to_lower, atoi, digits_from, ◌==◌,
}
use uknow.Card.{Card, Number, Color, card, is_wild, int_to_number}
use uknow.Repl.{
  ParseError, Token, ident, int, eof, token_text, card_number, card_color, plain_number,
  parse_card_sequence, resume,
}

-- The word for a number, and for a color.
abbrev pub number_word : Number → String
number_word n =
    if n == 0
    then "0"
    else if n == 1
    then "1"
    else if n == 2
    then "2"
    else if n == 3
    then "3"
    else if n == 4
    then "4"
    else if n == 5
    then "5"
    else if n == 6
    then "6"
    else if n == 7
    then "7"
    else if n == 8
    then "8"
    else if n == 9
    then "9"
    else if n == 10
    then "skip"
    else if n == 11
    then "rev"
    else if n == 12
    then "draw2"
    else if n == 13
    then "wild"
    else "wild4"

abbrev pub color_word : Color → String
color_word c =
    if c == 1 then "red" else if c == 2 then "green" else if c == 3 then "blue" else "yellow"

number_word_lem : (n : ℕ) → n ≤ 14 → card_number (number_word n) ≡ ok n
unfolding card_number plain_number to_lower atoi digits_from int_to_number
number_word_lem zero h = refl
number_word_lem (suc zero) h = refl
number_word_lem (suc (suc zero)) h = refl
number_word_lem (suc (suc (suc zero))) h = refl
number_word_lem (suc (suc (suc (suc zero)))) h = refl
number_word_lem (suc (suc (suc (suc (suc zero))))) h = refl
number_word_lem (suc (suc (suc (suc (suc (suc zero)))))) h = refl
number_word_lem (suc (suc (suc (suc (suc (suc (suc zero))))))) h = refl
number_word_lem (suc (suc (suc (suc (suc (suc (suc (suc zero)))))))) h = refl
number_word_lem (suc (suc (suc (suc (suc (suc (suc (suc (suc zero))))))))) h = refl
number_word_lem (suc (suc (suc (suc (suc (suc (suc (suc (suc (suc zero)))))))))) h = refl
number_word_lem (suc (suc (suc (suc (suc (suc (suc (suc (suc (suc (suc zero))))))))))) h = refl
number_word_lem (suc (suc (suc (suc (suc (suc (suc (suc (suc (suc (suc (suc zero)))))))))))) h =
    refl
number_word_lem (suc (suc (suc (suc (suc (suc (suc (suc (suc (suc (suc (suc (suc zero)))))))))))))
      h =
    refl
number_word_lem
      (suc (suc (suc (suc (suc (suc (suc (suc (suc (suc (suc (suc (suc (suc zero)))))))))))))) h =
    refl
number_word_lem
      (suc (suc (suc (suc (suc (suc (suc (suc (suc (suc (suc (suc (suc (suc (suc n)))))))))))))))
      h =
    absurd (omega (arith, h))

color_word_lem : (c : ℕ) → 1 ≤ c → c ≤ 4 → card_color (ident (color_word c)) ≡ ok c
unfolding card_color to_lower
color_word_lem zero l h = absurd (omega (arith, l))
color_word_lem (suc zero) l h = refl
color_word_lem (suc (suc zero)) l h = refl
color_word_lem (suc (suc (suc zero))) l h = refl
color_word_lem (suc (suc (suc (suc zero)))) l h = refl
color_word_lem (suc (suc (suc (suc (suc n))))) l h = absurd (omega (arith, h))

-- A card that can be dropped: a wild card has no color, and any other card one of four.
pub data Droppable : Card → Type 0 where
  wild_card : Droppable (card 13 0)
  wild_card4 : Droppable (card 14 0)
  colored : {n c : ℕ} → n ≤ 12 → 1 ≤ c → c ≤ 4 → Droppable (card n c)

abbrev pub number_token : Number → Token
number_token n = if leb n 9 then int (number_word n) else ident (number_word n)

-- The tokens of a card behind its number.
abbrev pub color_tokens : Card → List Token
color_tokens c = if is_wild c then [] else ident (color_word c.color) ∷ []

abbrev pub card_tokens : List Card → List Token
card_tokens [] = []
card_tokens (c ∷ cs) = number_token c.number ∷ (color_tokens c ++ card_tokens cs)

pub text-number_token : (n : ℕ) → token_text (number_token n) ≡ number_word n
text-number_token n = ground arith

-- Every card of the list can be dropped.
pub data AllDroppable : List Card → Type 0 where
  none_left : AllDroppable []
  one_more : {c : Card} {cs : List Card} → Droppable c → AllDroppable cs → AllDroppable (c ∷ cs)

resume-number_token :
    (n : ℕ) (cards : List Card) (more : Outcome ParseError (Token × List Card))
    → resume (number_token n) cards more ≡ more
resume-number_token n cards more = ground arith

module _ (acc : List Card) (text : String) (n : Number) (e : card_number text ≡ ok n) where
  wild_end :
      is_wild (card n 0) ≡ true → parse_card_sequence acc text [] ≡ ok (eof, acc ++ card n 0 ∷ [])
  unfolding parse_card_sequence
  wild_end w = ground (arith, e, w)

  wild_step :
      (t : Token) (rest : List Token)
      → is_wild (card n 0) ≡ true
      → parse_card_sequence acc text (t ∷ rest)
        ≡ resume t
            (acc ++ card n 0 ∷ [])
            (parse_card_sequence (acc ++ card n 0 ∷ []) (token_text t) rest)
  unfolding parse_card_sequence
  wild_step t [] w = ground (arith, e, w)
  wild_step t (u ∷ rest) w = ground (arith, e, w)

  colored_end :
      (t : Token) (c : Color)
      → is_wild (card n 0) ≡ false
      → card_color t ≡ ok c
      → parse_card_sequence acc text (t ∷ []) ≡ ok (eof, acc ++ card n c ∷ [])
  unfolding parse_card_sequence
  colored_end t c w k = ground (arith, e, w, k)

  colored_step :
      (t u : Token) (rest : List Token) (c : Color)
      → is_wild (card n 0) ≡ false
      → card_color t ≡ ok c
      → parse_card_sequence acc text (t ∷ u ∷ rest)
        ≡ resume u
            (acc ++ card n c ∷ [])
            (parse_card_sequence (acc ++ card n c ∷ []) (token_text u) rest)
  unfolding parse_card_sequence
  colored_step t u rest c w k = ground (arith, e, w, k)

-- The parser reads the cards of the list, one after the other.
abbrev Reads : List Card → Type 0
Reads cs =
    (acc : List Card) (c : Card)
    → Droppable c
    → parse_card_sequence acc (number_word c.number) (color_tokens c ++ card_tokens cs)
      ≡ ok (eof, acc ++ c ∷ cs)

not_wild : (n c : ℕ) → n ≤ 12 → is_wild (card n c) ≡ false
not_wild n c h = ground arith

color_tokens-colored : (n c : ℕ) → n ≤ 12 → color_tokens (card n c) ≡ ident (color_word c) ∷ []
color_tokens-colored n c h = rw (not_wild n c h)

Reads-nil : Reads []
Reads-nil acc _ wild_card = wild_end acc "wild" 13 (number_word_lem 13 (omega arith)) refl
Reads-nil acc _ wild_card4 = wild_end acc "wild4" 14 (number_word_lem 14 (omega arith)) refl
Reads-nil acc _ (colored {n} {c = k} h l m) = rw (color_tokens-colored n k h) (
    colored_end acc (number_word n) n (number_word_lem n (omega (arith, h))) (ident (color_word k))
      k (not_wild n 0 h) (color_word_lem k l m))

append_one : (acc : List Card) (c : Card) (cs : List Card) → (acc ++ c ∷ []) ++ cs ≡ acc ++ c ∷ cs
append_one [] c cs = refl
append_one (d ∷ acc) c cs = ap (◌∷◌ d) (append_one acc c cs)

Droppable-small : {c : Card} → Droppable c → c.number ≤ 14
Droppable-small wild_card = omega arith
Droppable-small wild_card4 = omega arith
Droppable-small (colored h l m) = omega (arith, h)

-- What is read after one card, if the next one and the ones behind it are read.
next_read :
    (acc : List Card) (c d : Card) (ds : List Card)
    → Droppable d
    → Reads ds
    → resume (number_token d.number) (acc ++ c ∷ []) (
        parse_card_sequence
          (acc ++ c ∷ [])
          (token_text (number_token d.number))
          (color_tokens d ++ card_tokens ds))
      ≡ ok (eof, acc ++ c ∷ d ∷ ds)
next_read acc c d ds dd reads =
    resume-number_token d.number (acc ++ c ∷ []) _
    ∙ ap (λ w. parse_card_sequence (acc ++ c ∷ []) w (color_tokens d ++ card_tokens ds))
        (text-number_token d.number)
    ∙ reads (acc ++ c ∷ []) d dd
    ∙ ap (λ cs. ok (eof, cs)) (append_one acc c (d ∷ ds))

Reads-cons : (d : Card) (ds : List Card) → Droppable d → Reads ds → Reads (d ∷ ds)
Reads-cons d ds dd reads acc _ wild_card =
    wild_step acc "wild" 13 (number_word_lem 13 (omega arith)) (number_token d.number) _ refl
    ∙ next_read acc (card 13 0) d ds dd reads
Reads-cons d ds dd reads acc _ wild_card4 =
    wild_step acc "wild4" 14 (number_word_lem 14 (omega arith)) (number_token d.number) _ refl
    ∙ next_read acc (card 14 0) d ds dd reads
Reads-cons d ds dd reads acc _ (colored {n} {c = k} h l m) = rw (color_tokens-colored n k h) (
    colored_step acc (number_word n) n (number_word_lem n (omega (arith, h))) (ident (color_word k))
      (number_token d.number) (color_tokens d ++ card_tokens ds) k (not_wild n 0 h)
      (color_word_lem k l m)
    ∙ next_read acc (card n k) d ds dd reads)

pub all_read : (cs : List Card) → AllDroppable cs → Reads cs
all_read _ none_left = Reads-nil
all_read _ (one_more {c} {cs} d ds) = Reads-cons c cs d (all_read cs ds)
