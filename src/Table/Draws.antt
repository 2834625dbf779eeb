-- ===== src/Table/Draws.antt =====
-- Drawing cards into a hand: how many move, and what an empty draw deck does.
use mathlib.Core.Path.{subst}
use uknow.Prelude.{
  ℕ, zero, suc, ◌+◌, ◌≤◌, ◌<◌, ◌≡◌, refl, sym, ap, ◌∙◌, ◌≢◌, inl, inr, Bool, true, String, [], ◌∷◌,
  ◌++◌, ok, err, arith, length, length-append, lookup_or-insert, eq_iff, eq_refl, count-all,
}
use uknow.Card.{Card}
use uknow.Deck.{Deck, Sorter, push, top, must_pop}
use uknow.Deck.Counts.{deck_cases}
use uknow.Table.{Table, bare, hand_of, err_draw_deck_is_empty}
use uknow.Table.Game.{Game, run}
use uknow.Table.Eval.{pull_card, pull_cards, pulled}

pub length-sort_deck : (s : Sorter) (d : Deck) → length (s.sort_deck d) ≡ length d
length-sort_deck s d =
    sym (count-all (s.sort_deck d)) ∙ s.sort_deck_counts (λ _. true) d ∙ count-all d

-- The cards k of the draw deck went to the hand of the name; the rest of the table is as it was.
pub record Drawn (name : String) (k : ℕ) (t u : Table) : Type 0 where
  pub deck : length u.draw_deck + k ≡ length t.draw_deck
  pub hand : length (hand_of name u) ≡ length (hand_of name t) + k
  pub others : (other : String) → name ≢ other → hand_of other u ≡ hand_of other t
  pub rest : u ≡ record t { draw_deck = u.draw_deck; hand_of_player = u.hand_of_player }

Drawn-refl : (name : String) (t : Table) → Drawn name 0 t t
Drawn-refl name t = record {
  deck = omega arith;
  hand = omega arith;
  others = λ other h. refl;
  rest = refl;
}

Drawn-trans :
    {name : String} {j k : ℕ} {t u v : Table}
    → Drawn name j t u
    → Drawn name k u v
    → Drawn name (j + k) t v
Drawn-trans {name} {j} {k} {t} {u} {v} a b = record {
  deck = omega (arith, a.deck, b.deck);
  hand = omega (arith, a.hand, b.hand);
  others = λ other h. b.others other h ∙ a.others other h;
  rest =
      b.rest
      ∙ ap (λ (x : Table). record x { draw_deck = v.draw_deck; hand_of_player = v.hand_of_player })
          a.rest;
}

pulled-Drawn :
    (s : Sorter) (name : String) (b : Bool) (c : Card) (r : Deck) (g : Game)
    → g.table.draw_deck ≡ r ++ c ∷ []
    → Drawn name 1 g.table (pulled s name b c r g).table
pulled-Drawn s name b c r g e = record {
  deck = omega (arith, ap length e, length-append r (c ∷ []));
  hand =
      rw (lookup_or-insert, eq_refl)
        (omega (
          arith,
          length-sort_deck s (push (hand_of name g.table) (c ∷ [])),
          length-append (hand_of name g.table) (c ∷ []),
        ));
  others = λ other h. ground (
    arith,
    lookup_or-insert [] name other (s.sort_deck (push (hand_of name g.table) (c ∷ [])))
        g.table.hand_of_player,
    eq_iff name other,
  );
  rest = refl;
}

pull_cards-step :
    (s : Sorter) (k : ℕ) (name : String) (b : Bool) (g : Game) (c : Card) (r : Deck)
    → top g.table.draw_deck ≡ ok c
    → must_pop g.table.draw_deck ≡ ok r
    → pull_cards s (suc k) name b g ≡ pull_cards s k name b (pulled s name b c r g)
unfolding run pull_cards pull_card
pull_cards-step s k name b g c r et er = ground (arith, et, er)

pull_cards-none :
    (s : Sorter) (k : ℕ) (name : String) (b : Bool) (g : Game)
    → g.table.draw_deck ≡ []
    → pull_cards s (suc k) name b g ≡ (err (bare err_draw_deck_is_empty), g)
unfolding run pull_cards pull_card top
pull_cards-none s k name b g e = ground arith

Drawn-suc :
    {name : String} {k : ℕ} {t u v : Table}
    → Drawn name 1 t u
    → Drawn name k u v
    → Drawn name (suc k) t v
Drawn-suc {name} {k} {t} {u} {v} a b =
    let e : 1 + k ≡ suc k = omega arith in rw e at (Drawn-trans a b)

-- With enough cards in the draw deck, k of them go to the hand and the loop returns.
pub pull_cards-enough :
    (s : Sorter) (k : ℕ) (name : String) (b : Bool) (g : Game)
    → k ≤ length g.table.draw_deck
    → ((pull_cards s k name b g).0 ≡ ok tt) × Drawn name k g.table (pull_cards s k name b g).1.table
unfolding run pull_cards
pull_cards-enough s zero name b g h = (refl, Drawn-refl name g.table)
pull_cards-enough s (suc k) name b g h = elim (deck_cases g.table.draw_deck) [
  | inl e ↦ absurd (omega (arith, ap length e))
  | inr (c, r, et, _, _, er, ed) ↦
      let one = pulled-Drawn s name b c r g ed in
      let more = pull_cards-enough s k name b (pulled s name b c r g) (omega (arith, one.deck)) in
      subst (λ (x : _ × Game). (x.0 ≡ ok tt) × Drawn name (suc k) g.table x.1.table)
        (sym (pull_cards-step s k name b g c r et er)) (more.0, Drawn-suc one more.1)
]

-- With fewer than k cards in the draw deck, the loop moves all of them to the hand and then fails
-- because the draw deck is empty: the cards already drawn stay in the hand.
pub pull_cards-short :
    (s : Sorter) (k : ℕ) (name : String) (b : Bool) (g : Game)
    → length g.table.draw_deck < k
    → ((pull_cards s k name b g).0 ≡ err (bare err_draw_deck_is_empty))
      × Drawn name (length g.table.draw_deck) g.table (pull_cards s k name b g).1.table
pull_cards-short s zero name b g h = elim h [ ]
pull_cards-short s (suc k) name b g h = elim (deck_cases g.table.draw_deck) [
  | inl e ↦
      subst
        (λ (x : _ × Game).
          (x.0 ≡ err (bare err_draw_deck_is_empty))
          × Drawn name (length g.table.draw_deck) g.table x.1.table)
        (sym (pull_cards-none s k name b g e))
        (
          refl,
          subst (λ n. Drawn name n g.table g.table) (sym (ap length e)) (Drawn-refl name g.table),
        )
  | inr (c, r, et, _, _, er, ed) ↦
      let one = pulled-Drawn s name b c r g ed in
      let more = pull_cards-short s k name b (pulled s name b c r g) (omega (arith, one.deck)) in
      let e : suc (length r) ≡ length g.table.draw_deck = omega (arith, one.deck) in
      subst
        (λ (x : _ × Game).
          (x.0 ≡ err (bare err_draw_deck_is_empty))
          × Drawn name (length g.table.draw_deck) g.table x.1.table)
        (sym (pull_cards-step s k name b g c r et er))
        (
          more.0,
          subst (λ n. Drawn name n g.table (pull_cards s k name b (pulled s name b c r g)).1.table)
              e (Drawn-suc one more.1),
        )
]
