-- ===== src/Table/Cards.antt =====
-- All the cards of a table, counted by any test on cards: no decision makes or loses one.

use uknow.Table.Stable.{Stable}
use uknow.Table.Stable.Decisions.{eval_player_decisions-keeps}
use uknow.Table.Decide.{eval_player_decisions}
use uknow.Prelude.{
  ℕ, ◌+◌, ◌≡◌, refl, ap, inl, inr, Bool, String, List, [], ◌∷◌, ◌++◌, arith, StringMap, lookup_or,
  insert, count, count-append, take, drop,
}
use uknow.Card.{Card}
use uknow.Deck.{Deck, Sorter, push, top, must_find_card}
use uknow.Deck.Counts.{deck_cases, removes, count-remove}
use uknow.Table.{Table, PlayerDecision, hand_of}
use uknow.Table.Game.{Game}
use uknow.Table.Play.{drop_card}
use uknow.Table.Rules.{Keeps}
use uknow.Table.Eval.{pull_card}

module _ (p : Card → Bool) where
  abbrev pub count_hands : StringMap Deck → ℕ
  count_hands [] = 0
  count_hands ((name, hand) ∷ hands) = count p hand + count_hands hands

  -- The cards of the draw deck, the pile and all hands.
  abbrev pub count_cards : Table → ℕ
  count_cards t = count p t.draw_deck + count p t.discarded_pile + count_hands t.hand_of_player

  pub count_hands-insert :
      (name : String) (hand : Deck) (hands : StringMap Deck)
      → count_hands (insert name hand hands) + count p (lookup_or [] name hands)
        ≡ count_hands hands + count p hand
  unfolding insert lookup_or
  count_hands-insert name hand [] = omega arith
  count_hands-insert name hand ((j, other) ∷ hands) =
      ground (arith, count_hands-insert name hand hands)

  -- The number of cards is n.
  abbrev pub HasCards : ℕ → Table → Type 0
  HasCards n t = count_cards t ≡ n

module _ (p : Card → Bool) (n : ℕ) where
  module _ (s : Sorter) where
    pub pull_card-keeps : (target : String) (b : Bool) → Keeps (HasCards p n) (pull_card s target b)
    unfolding pull_card top
    pull_card-keeps target b = record {
      at = λ g h.
          let hand = hand_of target g.table in
          elim (deck_cases g.table.draw_deck) [
            | inl e ↦ ground arith
            | inr (c, r, et, _, _, er, ed) ↦ ground (
              arith,
              et,
              er,
              ap (count p) ed,
              count-append p r (c ∷ []),
              count_hands-insert p target (s.sort_deck (push hand (c ∷ []))) g.table.hand_of_player,
              s.sort_deck_counts p (push hand (c ∷ [])),
              count-append p hand (c ∷ []),
            )
          ];
    }

  pub drop_card-keeps : (name : String) (c : Card) → Keeps (HasCards p n) (drop_card name c)
  unfolding drop_card must_find_card
  drop_card-keeps name c = record {
    at = λ g h.
        let hand = hand_of name g.table in
        elim (removes hand c) [
          | inl (z, e) ↦ ground (arith, e)
          | inr (i, e, at, _) ↦ ground (
            arith,
            e,
            count-remove p hand i c at,
            count_hands-insert p name (take i hand ++ drop (i + 1) hand) g.table.hand_of_player,
            count-append p g.table.discarded_pile (c ∷ []),
          )
        ];
  }

  HasCards-Stable : (s : Sorter) → Stable s (HasCards p n)
  HasCards-Stable s = record {
    state = λ st e t h. h;
    color = λ c t h. h;
    number = λ k t h. h;
    before_wild4 = λ t h. h;
    winner = λ name t h. h;
    next = λ name t h. h;
    reverse = λ t h. h;
    pull = pull_card-keeps s;
    drop = drop_card-keeps;
  }

-- Whatever a player decides and however the evaluation ends, an error or a panic in the middle
-- included, the draw deck, the pile and the hands hold together as many cards of every kind as
-- before.
pub eval_player_decisions-conserves :
    (s : Sorter) (name : String) (ds : List PlayerDecision) (g : Game) (p : Card → Bool)
    → count_cards p (eval_player_decisions s name ds g).1.table ≡ count_cards p g.table
eval_player_decisions-conserves s name ds g p =
    (eval_player_decisions-keeps (HasCards-Stable p (count_cards p g.table) s) name ds).at g refl
