-- ===== src/Screen/Hands/Chart.antt =====
-- The chart of the hands, the entry of a name, and the hands of a table that gets a new one.
use mathlib.Core.Path.{subst}
use uknow.Prelude.{
  ℕ, suc, ◌≡◌, ◌≢◌, refl, sym, ◌∙◌, inl, inr, String, List, [], ◌∷◌, arith, str_eq, eq_iff,
  if◌then◌else◌, length, lookup_or, insert, lookup_or-insert, Bool-cases, ap₂, ◌⊎◌,
}
use uknow.Prelude.Int.{ℤ, pos, negsuc, ◌+ℤ◌}
use uknow.Deck.{Deck}
use uknow.Table.{Table, hand_of}
use uknow.Screen.Hands.{add_count}
use uknow.Screen.Hands.Cells.{AllColored}
use uknow.Screen.Hands.Follows.{added}

-- The chart for the names, from the hands of the table.
abbrev pub counted : Table → List String → List (String × ℤ)
counted t [] = []
counted t (name ∷ names) = (name, pos (length (hand_of name t))) ∷ counted t names

abbrev pub AbsentFrom : String → List String → Type 0
AbsentFrom name [] = Unit
AbsentFrom name (other ∷ names) = (name ≢ other) × AbsentFrom name names

-- No name comes twice.
abbrev pub AllDistinct : List String → Type 0
AllDistinct [] = Unit
AllDistinct (name ∷ names) = AbsentFrom name names × AllDistinct names

pub dec_eq : (a b : String) → (a ≡ b) ⊎ (a ≢ b)
dec_eq a b = elim (Bool-cases (str_eq a b)) [
  | inl q ↦ inl (ground (arith, q, eq_iff a b))
  | inr q ↦ inr λ e. ground (arith, q, e, eq_iff a b)
]

pub counted-absent :
    (t t' : Table) (name : String) (names : List String)
    → ((other : String) → name ≢ other → hand_of other t' ≡ hand_of other t)
    → AbsentFrom name names
    → counted t' names ≡ counted t names
counted-absent t t' name [] others a = refl
counted-absent t t' name (other ∷ names) others a =
    ground (arith, others other a.0, counted-absent t t' name names others a.1)

added-here :
    (first name : String) (k x : ℤ) (counts : List (String × ℤ))
    → first ≡ name
    → added name k ((first, x) ∷ counts) ≡ (first, x +ℤ k) ∷ counts
unfolding add_count
added-here first name k x counts e = ground (arith, eq_iff first name, e)

added-later :
    (first name : String) (k x : ℤ) (counts : List (String × ℤ))
    → first ≢ name
    → added name k ((first, x) ∷ counts) ≡ (first, x) ∷ added name k counts
unfolding add_count
added-later first name k x counts n = ground (arith, eq_iff first name, n)

pub added-counted :
    (t t' : Table) (name : String) (k : ℤ) (names : List String)
    → AllDistinct names
    → ((other : String) → name ≢ other → hand_of other t' ≡ hand_of other t)
    → pos (length (hand_of name t)) +ℤ k ≡ pos (length (hand_of name t'))
    → added name k (counted t names) ≡ counted t' names
unfolding add_count
added-counted t t' name k [] d others e = refl
added-counted t t' name k (first ∷ names) d others e = elim (dec_eq first name) [
  | inl same ↦
      added-here first name k (pos (length (hand_of first t))) (counted t names) same
      ∙ ap₂ (λ x cs. (first, x) ∷ cs)
          (subst (λ who. pos (length (hand_of who t)) +ℤ k ≡ pos (length (hand_of who t')))
            (sym same) e)
          (sym (counted-absent t t' first names (λ other n. others other (λ q. n (same ∙ q))) d.0))
  | inr n ↦
      added-later first name k (pos (length (hand_of first t))) (counted t names) n
      ∙ ap₂ (λ h cs. (first, pos (length h)) ∷ cs) (sym (others first (λ q. n (sym q))))
          (added-counted t t' name k names d.1 others e)
]

pub hand_of-insert :
    (name other : String) (d : Deck) (t : Table)
    → lookup_or [] other (insert name d t.hand_of_player)
      ≡ (if str_eq name other then d else hand_of other t)
hand_of-insert name other d t = lookup_or-insert [] name other d t.hand_of_player

-- A table with a new hand for the name.
module _ (name : String) (d : Deck) (t t' : Table)
    (hands : t'.hand_of_player ≡ insert name d t.hand_of_player) where
  pub same_hand : hand_of name t' ≡ d
  same_hand = ground (arith, hands, hand_of-insert name name d t, eq_iff name name)

  pub other_hand : (other : String) → name ≢ other → hand_of other t' ≡ hand_of other t
  other_hand other n = ground (arith, hands, hand_of-insert name other d t, eq_iff name other, n)

  pub colored_hands :
      AllColored d
      → ((other : String) → AllColored (hand_of other t))
      → (other : String) → AllColored (hand_of other t')
  colored_hands clean all other = elim (dec_eq name other) [
    | inl e ↦ subst (λ who. AllColored (hand_of who t')) e (subst AllColored (sym same_hand) clean)
    | inr n ↦ subst AllColored (sym (other_hand other n)) (all other)
  ]

pub pos-suc : (n : ℕ) → pos n +ℤ pos 1 ≡ pos (suc n)
unfolding ◌+ℤ◌
pos-suc n = ground arith

pub pos-pred : (n : ℕ) → pos (suc n) +ℤ negsuc 0 ≡ pos n
unfolding ◌+ℤ◌
pos-pred n = ground arith
