-- ===== src/Screen/Hands/Evaluations.antt =====
-- The cards on the screen while the table draws and plays them.
pub mod Played
use mathlib.Core.Path.{subst}
use uknow.Prelude.{
  ℕ, zero, suc, ◌+◌, ◌-◌, ◌≡◌, ◌≢◌, refl, sym, ap, ◌∙◌, inl, inr, Bool, true, false, String, List,
  [], ◌∷◌, ◌++◌, Option, none, some, Outcome, ok, err, panic, arith, str_eq, eq_iff, if◌then◌else◌,
  length, length-append, lookup_or, insert, lookup_or-insert, count, count-append, take, drop,
  Bool-cases, ap₂, ◌⊎◌,
}
use uknow.Prelude.Int.{ℤ, pos, negsuc, ◌+ℤ◌}
use uknow.Card.{Card}
use uknow.Deck.{Deck, Sorter, push, top, must_pop}
use uknow.Event.{CardTransferEvent, card_transfer, deck, pile, player_hand}
use uknow.Table.{Table, hand_of}
use uknow.Table.Game.{Game}
use uknow.Table.Eval.{pulled, pull_card}
use uknow.Deck.Counts.{deck_cases}
use uknow.Table.Draws.{length-sort_deck}
use uknow.Screen.{ClientUi, Deadlock}
use uknow.Screen.Hands.{add_count, handle_card_transfer_event}
use uknow.Screen.Hands.Cells.{AllColored, is_colorless}
use uknow.Screen.Hands.Chart.{
  counted, AbsentFrom, AllDistinct, dec_eq, added-counted, hand_of-insert, same_hand, other_hand,
  colored_hands, pos-suc, pos-pred,
}
use uknow.Screen.Hands.Follows.{Shows, Ends, Written, added}
use uknow.Screen.Hands.Transfers.{
  hand_with, Ends-handle, reach_hand, reach_pile, leave_deck, leave_own_hand, leave_other_hand,
}

-- The screen shows the table to the local player, in its texts too, and every card on the table has a
-- color.
pub record Mirrors (local : String) (names : List String) (t : Table) (u : ClientUi) : Type 0 where
  pub shows :
      Shows (hand_of local t) t.discarded_pile (pos (length t.draw_deck)) (counted t names) u
  pub written : Written u
  pub deck_colored : AllColored t.draw_deck
  pub pile_colored : AllColored t.discarded_pile
  pub hands_colored : (name : String) → AllColored (hand_of name t)

-- The handler of the transfer returns, and the screen shows the table afterwards.
pub record Mirrored (local : String) (names : List String) (t : Table)
    (r : Outcome Deadlock ClientUi) : Type 0 where
  pub ui : ClientUi
  pub returns : r ≡ ok ui
  pub mirrors : Mirrors local names t ui

abbrev pub pull_event : String → Bool → Card → CardTransferEvent
pull_event target b c = record {
  source = deck;
  sink = player_hand;
  source_player = "";
  sink_player = target;
  card = c;
  is_from_local_client = b;
}

module _ (s : Sorter) (local : String) (names : List String) (distinct : AllDistinct names) where
  pulled-Mirrored :
      (target : String) (b : Bool) (c : Card) (r : Deck) (g : Game) (u : ClientUi)
      → g.table.draw_deck ≡ r ++ c ∷ []
      → Mirrors local names g.table u
      → Mirrored local names
          (pulled s target b c r g).table
          (handle_card_transfer_event s (pull_event target b c) local u)
  pulled-Mirrored target b c r g u e m = record {
    ui = done.ui;
    returns = done.returns;
    mirrors = record {
      shows = record {
        hand_is = λ p. done.shows.hand_is p ∙ ap (count p) own;
        pile_is = done.shows.pile_is;
        percent_is = done.shows.percent_is ∙ fewer;
        counts_are = done.shows.counts_are ∙ charted;
        cells = done.shows.cells;
      };
      written = done.written;
      deck_colored = clean_rest;
      pile_colored = m.pile_colored;
      hands_colored = colored_hands target sorted t t' refl clean_sorted m.hands_colored;
    };
  }
    where
      t : Table
      t = g.table

      t' : Table
      t' = (pulled s target b c r g).table

      sorted : Deck
      sorted = s.sort_deck (push (hand_of target t) (c ∷ []))

      clean_deck : count is_colorless r + count is_colorless (c ∷ []) ≡ 0
      clean_deck =
          sym (count-append is_colorless r (c ∷ []))
          ∙ ap (count is_colorless) (sym e)
          ∙ m.deck_colored

      clean_rest : AllColored r
      clean_rest = omega (arith, clean_deck)

      clean_sorted : AllColored sorted
      clean_sorted =
          s.sort_deck_counts is_colorless (push (hand_of target t) (c ∷ []))
          ∙ count-append is_colorless (hand_of target t) (c ∷ [])
          ∙ omega (arith, clean_deck, m.hands_colored target)

      own : hand_with s (str_eq local target) c (hand_of local t) ≡ hand_of local t'
      own =
          ground
            (arith, eq_iff local target, eq_iff target local, hand_of-insert target local sorted t)

      clean_own : AllColored (hand_with s (str_eq local target) c (hand_of local t))
      clean_own =
          subst AllColored (sym own)
            (colored_hands target sorted t t' refl clean_sorted m.hands_colored local)

      fewer : pos (length t.draw_deck) +ℤ negsuc 0 ≡ pos (length r)
      fewer =
          let l : length t.draw_deck ≡ suc (length r) =
            omega (arith, ap length e, length-append r (c ∷ [])) in
          ap (λ n. pos n +ℤ negsuc 0) l ∙ pos-pred (length r)

      more : pos (length (hand_of target t)) +ℤ pos 1 ≡ pos (length (hand_of target t'))
      more =
          let l : suc (length (hand_of target t)) ≡ length (hand_of target t') = omega (
            arith,
            ap length (same_hand target sorted t t' refl),
            length-sort_deck s (push (hand_of target t) (c ∷ [])),
            length-append (hand_of target t) (c ∷ []),
          ) in
          pos-suc (length (hand_of target t)) ∙ ap pos l

      charted : added target (pos 1) (counted t names) ≡ counted t' names
      charted =
          added-counted t t' target (pos 1) names distinct (other_hand target sorted t t' refl) more

      done :
          Ends
            (hand_with s (str_eq local target) c (hand_of local t))
            t.discarded_pile
            (pos (length t.draw_deck) +ℤ negsuc 0)
            (added target (pos 1) (counted t names))
            (handle_card_transfer_event s (pull_event target b c) local u)
      done =
          Ends-handle s (pull_event target b c) local u
            (λ v. leave_deck (pull_event target b c) local v refl)
            (λ v. reach_hand s (pull_event target b c) local v refl clean_own) m.shows m.written

  pull_card-empty :
      (target : String) (b : Bool) (c : Card) (g : Game)
      → g.table.draw_deck ≡ []
      → (pull_card s target b g).0 ≢ ok c
  unfolding pull_card top
  pull_card-empty target b c g e = ground arith

  pull_card-pulled :
      (target : String) (b : Bool) (d : Card) (r : Deck) (g : Game)
      → top g.table.draw_deck ≡ ok d
      → must_pop g.table.draw_deck ≡ ok r
      → pull_card s target b g ≡ (ok d, pulled s target b d r g)
  unfolding pull_card
  pull_card-pulled target b d r g et er = ground (arith, et, er)

  -- A card that is drawn: the table sends its transfer, whose handler returns, and a screen that
  -- showed the table before shows it afterwards: the cards of the local player's hand, the pile, the
  -- size of the draw deck and the number of cards of every player; and the text of the hand and the
  -- cells of the pile, if they were written before, have the symbols of these cards. Before and
  -- afterwards, every card on the table has a color.
  pub pull_card-Mirrored :
      (target : String) (b : Bool) (c : Card) (g : Game) (u : ClientUi)
      → (pull_card s target b g).0 ≡ ok c
      → Mirrors local names g.table u
      → ((pull_card s target b g).1.sent ≡ g.sent ++ card_transfer (pull_event target b c) ∷ [])
        × Mirrored local names
            (pull_card s target b g).1.table
            (handle_card_transfer_event s (pull_event target b c) local u)
  pull_card-Mirrored target b c g u e m = elim (deck_cases g.table.draw_deck) [
    | inl none_left ↦ absurd (pull_card-empty target b c g none_left e)
    | inr (d, r, et, _, _, er, ed) ↦
        let same = pull_card-pulled target b d r g et er in
        let first : d ≡ c = ground (arith, ap (λ (x : _ × Game). x.0) same, e) in
        subst
          (λ (x : _ × Game).
            (x.1.sent ≡ g.sent ++ card_transfer (pull_event target b c) ∷ [])
            × Mirrored local names x.1.table
                (handle_card_transfer_event s (pull_event target b c) local u))
          (sym same)
          (subst
            (λ a.
              ((pulled s target b d r g).sent
                ≡ g.sent ++ card_transfer (pull_event target b a) ∷ [])
              × Mirrored local names (pulled s target b d r g).table
                  (handle_card_transfer_event s (pull_event target b a) local u))
            first (refl, pulled-Mirrored target b d r g u ed m))
  ]
