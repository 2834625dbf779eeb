-- ===== src/Screen/Hands/Evaluations/Played.antt =====
-- The cards on the screen when a player plays a card.
use mathlib.Core.Path.{subst}
use uknow.Prelude.{
  ℕ, suc, ◌+◌, ◌≡◌, refl, sym, ap, ap₂, ◌∙◌, inl, inr, Bool, true, String, List, [], ◌∷◌, ◌++◌,
  some, ok, arith, length, insert, count, count-append, count-all, take, drop, get_elem?, one,
}
use uknow.Prelude.Int.{pos, negsuc, ◌+ℤ◌}
use uknow.Card.{Card}
use uknow.Deck.{
  Deck, Sorter, push, find_and_remove_card, find_card, must_find_card, find_from, remove_card,
}
use uknow.Deck.Counts.{removes, count-remove}
use uknow.Event.{GameEvent, card_transfer, CardTransferEvent, pile, player_hand}
use uknow.Table.{Table, hand_of}
use uknow.Table.Game.{Game, ◌>>=◌, get_table, send}
use uknow.Table.Play.{drop_card, send_dropped}
use uknow.Table.Eval.{is_local}
use uknow.Screen.{ClientUi}
use uknow.Screen.Hands.{handle_card_transfer_event, leave_source}
use uknow.Screen.Hands.Cells.{AllColored, is_colorless}
use uknow.Screen.Hands.Chart.{
  AllDistinct, counted, added-counted, same_hand, other_hand, colored_hands, dec_eq, pos-pred,
}
use uknow.Screen.Hands.Follows.{Shows, Ends, Written, added}
use uknow.Screen.Hands.Transfers.{Ends-handle, reach_pile, leave_own_hand, leave_other_hand, GoesOn}
use uknow.Screen.Hands.Evaluations.{Mirrors, Mirrored}

abbrev pub drop_event : String → Bool → Card → CardTransferEvent
drop_event name b c = record {
  source = player_hand;
  sink = pile;
  source_player = name;
  sink_player = "";
  card = c;
  is_from_local_client = b;
}

-- A hand, and what the removal of the card leaves of it.
record Removed (hand : Deck) (c : Card) (hand' : Deck) : Type 0 where
  pub found : find_and_remove_card hand c ≡ ok hand'
  pub counts : (p : Card → Bool) → count p hand' + one p c ≡ count p hand
  pub size : suc (length hand') ≡ length hand

Removed-at :
    (d : Deck) (c : Card) (i : ℕ)
    → find_from 0 d c ≡ some i
    → get_elem? d i ≡ some c
    → remove_card d i ≡ ok (take i d ++ drop (i + 1) d)
    → Removed d c (take i d ++ drop (i + 1) d)
unfolding find_and_remove_card find_card
Removed-at d c i e at r = record {
  found = ground (arith, e, r);
  counts = λ p. count-remove p d i c at;
  size = omega (
    arith,
    count-all (take i d ++ drop (i + 1) d),
    count-all d,
    count-remove (λ _. true) d i c at,
  );
}

-- What a play takes from the hand and puts on the pile.
record Dropped (name : String) (c : Card) (g g' : Game) : Type 0 where
  pub hand : Deck
  pub removed : Removed (hand_of name g.table) c hand
  pub sent : g'.sent ≡ g.sent
  pub table : g'.table ≡ record g.table {
    hand_of_player = insert name hand g.table.hand_of_player;
    discarded_pile = push g.table.discarded_pile (c ∷ []);
  }

drop_card-Dropped :
    (name : String) (c : Card) (g : Game)
    → (drop_card name c g).0 ≡ ok tt
    → Dropped name c g (drop_card name c g).1
unfolding drop_card must_find_card
drop_card-Dropped name c g e = elim (removes (hand_of name g.table) c) [
  | inl (_, none_found) ↦ ground (arith, e, none_found)
  | inr (i, found, at, rest) ↦ record {
    hand = take i (hand_of name g.table) ++ drop (i + 1) (hand_of name g.table);
    removed = Removed-at (hand_of name g.table) c i found at rest;
    sent = ground (arith, found);
    table = ground (arith, found);
  }
]

module _ (s : Sorter) (local : String) (names : List String) (distinct : AllDistinct names) where
  dropped-Mirrored :
      (name : String) (b : Bool) (c : Card) (g : Game) (u : ClientUi)
      → (drop_card name c g).0 ≡ ok tt
      → Mirrors local names g.table u
      → Mirrored local names
          (drop_card name c g).1.table
          (handle_card_transfer_event s (drop_event name b c) local u)
  dropped-Mirrored name b c g u e m =
      subst
        (λ x. Mirrored local names x (handle_card_transfer_event s (drop_event name b c) local u))
        (sym d.table) shown
    where
      d : Dropped name c g (drop_card name c g).1
      d = drop_card-Dropped name c g e

      t : Table
      t = g.table

      t' : Table
      t' = record t {
        hand_of_player = insert name d.hand t.hand_of_player;
        discarded_pile = push t.discarded_pile (c ∷ []);
      }

      clean : count is_colorless d.hand + one is_colorless c ≡ 0
      clean = d.removed.counts is_colorless ∙ m.hands_colored name

      clean_pile : AllColored (push t.discarded_pile (c ∷ []))
      clean_pile =
          count-append is_colorless t.discarded_pile (c ∷ []) ∙ omega (arith, clean, m.pile_colored)

      clean_hand : AllColored d.hand
      clean_hand = omega (arith, clean)

      fewer : pos (length (hand_of name t)) +ℤ negsuc 0 ≡ pos (length (hand_of name t'))
      fewer =
          let l : length (hand_of name t) ≡ suc (length (hand_of name t')) =
            omega (arith, ap length (same_hand name d.hand t t' refl), d.removed.size) in
          ap (λ n. pos n +ℤ negsuc 0) l ∙ pos-pred (length (hand_of name t'))

      charted : added name (negsuc 0) (counted t names) ≡ counted t' names
      charted =
          added-counted t t' name (negsuc 0) names distinct (other_hand name d.hand t t' refl) fewer

      shows_hand :
          {x : Deck} (v : ClientUi)
          → hand_of local t' ≡ x
          → GoesOn x t.discarded_pile
              (pos (length t.draw_deck))
              (added name (negsuc 0) (counted t names))
              (leave_source (drop_event name b c) local v)
          → GoesOn
              (hand_of local t')
              t.discarded_pile
              (pos (length t.draw_deck))
              (added name (negsuc 0) (counted t names))
              (leave_source (drop_event name b c) local v)
      shows_hand v q r =
          subst
            (λ x.
              GoesOn x t.discarded_pile (pos (length t.draw_deck))
                (added name (negsuc 0) (counted t names))
                (leave_source (drop_event name b c) local v))
            (sym q) r

      leave :
          (v : ClientUi)
          → Shows (hand_of local t) t.discarded_pile (pos (length t.draw_deck)) (counted t names) v
          → Written v
          → GoesOn
              (hand_of local t')
              t.discarded_pile
              (pos (length t.draw_deck))
              (added name (negsuc 0) (counted t names))
              (leave_source (drop_event name b c) local v)
      leave v h w = elim (dec_eq local name) [
        | inl q ↦ shows_hand v (ap (λ who. hand_of who t') q ∙ same_hand name d.hand t t' refl) (
            leave_own_hand (drop_event name b c) local d.hand v refl q
              (λ p. d.removed.counts p ∙ ap (λ who. count p (hand_of who t)) (sym q)) clean_hand h
              w)
        | inr n ↦
            shows_hand v (other_hand name d.hand t t' refl local (λ q. n (sym q)))
              (leave_other_hand (drop_event name b c) local v refl n h w)
      ]

      done :
          Ends
            (hand_of local t')
            (push t.discarded_pile (c ∷ []))
            (pos (length t.draw_deck))
            (added name (negsuc 0) (counted t names))
            (handle_card_transfer_event s (drop_event name b c) local u)
      done =
          Ends-handle s (drop_event name b c) local u leave
            (λ v. reach_pile s (drop_event name b c) local v refl clean_pile) m.shows m.written

      shown : Mirrored local names t' (handle_card_transfer_event s (drop_event name b c) local u)
      shown = record {
        ui = done.ui;
        returns = done.returns;
        mirrors = record {
          shows = record {
            hand_is = done.shows.hand_is;
            pile_is = done.shows.pile_is;
            percent_is = done.shows.percent_is;
            counts_are = done.shows.counts_are ∙ charted;
            cells = done.shows.cells;
          };
          written = done.written;
          deck_colored = m.deck_colored;
          pile_colored = clean_pile;
          hands_colored = colored_hands name d.hand t t' refl clean_hand m.hands_colored;
        };
      }

  -- A play that takes the card out of the hand and puts it on the pile, and sends its transfer: the
  -- handler of what the table sends returns, and a screen that showed the table before shows it
  -- afterwards: the cards of the local player's hand, the pile, the size of the draw deck and the number
  -- of cards of every player; and the text of the hand and the cells of the pile, if they were written
  -- before, have the symbols of these cards. Before and afterwards, every card on the table has a color.
  pub drop_card-Mirrored :
      (name : String) (c : Card) (g : Game) (u : ClientUi)
      → (drop_card name c g).0 ≡ ok tt
      → Mirrors local names g.table u
      → let g' = (send_dropped name c (drop_card name c g).1).1 in
        let event = drop_event name (is_local name g.table) c in
        (g'.sent ≡ g.sent ++ card_transfer event ∷ [])
        × Mirrored local names g'.table (handle_card_transfer_event s event local u)
  unfolding ◌>>=◌ get_table send
  drop_card-Mirrored name c g u e m =
      let d = drop_card-Dropped name c g e in
      (
        ap₂
            (λ (t : Table) (sent : List GameEvent).
              sent ++ card_transfer (drop_event name (is_local name t) c) ∷ [])
            d.table d.sent,
        dropped-Mirrored name (is_local name g.table) c g u e m,
      )
