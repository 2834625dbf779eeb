-- ===== src/Screen/Hands/Transfers.antt =====
-- What the handler of card transfers does with a card that is drawn and a card that is played.
use mathlib.Core.Path.{subst}
use uknow.Event.Messages.{card_transfer_string}
use uknow.Prelude.{
  ◌+◌, count, count-append, one, inl, inr, join, ◌≢◌, eq_iff, ◌≡◌, refl, sym, ap, ◌∙◌, Bool, true,
  false, String, List, [], ◌∷◌, Outcome, ok, arith, str_eq, if◌then◌else◌,
}
use uknow.Prelude.Int.{ℤ, pos, negsuc, ◌+ℤ◌}
use uknow.Card.{Card, is_equal}
use uknow.Deck.Counts.{find_and_remove_card_lem}
use uknow.Deck.{Deck, Sorter, push}
use uknow.Event.{CardTransferEvent, deck, pile, player_hand}
use uknow.Screen.{ClientUi, Deadlock, append_event_log_no_lock}
use uknow.Screen.Hands.{
  update_player_hand_widget, add_to_hand_count_chart, leave_source, reach_sink,
  handle_card_transfer_event,
}
use uknow.Screen.Hands.Cells.{AllColored}
use uknow.Screen.Hands.Follows.{
  Shows, Ends, Written, Written-chart, Written-append_event_log, added, Shows-append_event_log,
  Shows-chart, Ends-widget, Ends-refresh,
}

-- A result that is the same as another one.
Ends-same :
    {hand rest : Deck} {percent : ℤ} {counts : List (String × ℤ)} {r r' : Outcome Deadlock ClientUi}
    → r ≡ r'
    → Ends hand rest percent counts r'
    → Ends hand rest percent counts r
Ends-same {hand} {rest} {percent} {counts} e h = subst (Ends hand rest percent counts) (sym e) h

-- The hand after the card was put into it, if it is the local player's.
abbrev pub hand_with : Sorter → Bool → Card → Deck → Deck
hand_with s is_own c hand = if is_own then s.sort_deck (push hand (c ∷ [])) else hand

module _ {hand rest : Deck} {percent : ℤ} {counts : List (String × ℤ)} (s : Sorter) where
  put_card :
      (is_own : Bool) (c : Card) (v : ClientUi)
      → AllColored (hand_with s is_own c hand)
      → Shows hand rest percent counts v
      → Written v
      → Ends (hand_with s is_own c hand) rest percent counts (
          if is_own
          then update_player_hand_widget
              (record v { player_hand = s.sort_deck (push v.player_hand (c ∷ [])) })
          else ok v)
  put_card true c v colored h w = Ends-widget _ colored w.cells_written (record {
    hand_is = λ p.
        s.sort_deck_counts p (push v.player_hand (c ∷ []))
        ∙ count-append p v.player_hand (c ∷ [])
        ∙ ap (λ n. n + count p (c ∷ [])) (h.hand_is p)
        ∙ sym (count-append p hand (c ∷ []))
        ∙ sym (s.sort_deck_counts p (push hand (c ∷ [])));
    pile_is = h.pile_is;
    percent_is = h.percent_is;
    counts_are = h.counts_are;
    cells = h.cells;
  })
  put_card false c v colored h w = record { ui = v; returns = refl; shows = h; written = w }

module _ {hand rest : Deck} {percent : ℤ} {counts : List (String × ℤ)} (s : Sorter) where
  pub reach_hand :
      (ev : CardTransferEvent) (local : String) (u : ClientUi)
      → ev.sink ≡ player_hand
      → AllColored (hand_with s (str_eq local ev.sink_player) ev.card hand)
      → Shows hand rest percent counts u
      → Written u
      → Ends
          (hand_with s (str_eq local ev.sink_player) ev.card hand)
          rest
          percent
          (added ev.sink_player (pos 1) counts)
          (reach_sink s ev local u)
  unfolding reach_sink
  reach_hand ev local u k colored h w = Ends-same (ground (arith, k)) (
      put_card s (str_eq local ev.sink_player) ev.card
        (add_to_hand_count_chart ev.sink_player (pos 1) u) colored
        (Shows-chart ev.sink_player (pos 1) u h) (Written-chart ev.sink_player (pos 1) u w))

  pub reach_pile :
      (ev : CardTransferEvent) (local : String) (u : ClientUi)
      → ev.sink ≡ pile
      → AllColored (push rest (ev.card ∷ []))
      → Shows hand rest percent counts u
      → Written u
      → Ends hand (push rest (ev.card ∷ [])) percent counts (reach_sink s ev local u)
  unfolding reach_sink
  reach_pile ev local u k colored h w = Ends-same (ground (arith, k)) (
      Ends-refresh (record u { discard_pile = push u.discard_pile (ev.card ∷ []) }) colored
        w.hand_written
        (record {
          hand_is = h.hand_is;
          pile_is = ap (λ d. push d (ev.card ∷ [])) h.pile_is;
          percent_is = h.percent_is;
          counts_are = h.counts_are;
          cells = h.cells;
        }))

-- The first half of the handler goes on, and then this is shown, and it is written.
pub record GoesOn (hand pile : Deck) (percent : ℤ) (counts : List (String × ℤ))
    (r : Outcome Deadlock (Bool × ClientUi)) : Type 0 where
  pub ui : ClientUi
  pub returns : r ≡ ok (true, ui)
  pub shows : Shows hand pile percent counts ui
  pub written : Written ui

one-is_equal : (c : Card) → one (is_equal c) c ≡ 1
one-is_equal c = ground arith

module _ {hand rest : Deck} {percent : ℤ} {counts : List (String × ℤ)} where
  pub leave_deck :
      (ev : CardTransferEvent) (local : String) (u : ClientUi)
      → ev.source ≡ deck
      → Shows hand rest percent counts u
      → Written u
      → GoesOn hand rest (percent +ℤ negsuc 0) counts (leave_source ev local u)
  unfolding leave_source
  leave_deck ev local u k h w = record {
    ui = record u { draw_deck_percent = u.draw_deck_percent +ℤ negsuc 0 };
    returns = ground (arith, k);
    shows = record {
      hand_is = h.hand_is;
      pile_is = h.pile_is;
      percent_is = ap (λ x. x +ℤ negsuc 0) h.percent_is;
      counts_are = h.counts_are;
      cells = h.cells;
    };
    written = record { hand_written = w.hand_written; cells_written = w.cells_written };
  }

  pub leave_own_hand :
      (ev : CardTransferEvent) (local : String) (hand' : Deck) (u : ClientUi)
      → ev.source ≡ player_hand
      → local ≡ ev.source_player
      → ((p : Card → Bool) → count p hand' + one p ev.card ≡ count p hand)
      → AllColored hand'
      → Shows hand rest percent counts u
      → Written u
      → GoesOn hand' rest percent
          (added ev.source_player (negsuc 0) counts)
          (leave_source ev local u)
  unfolding leave_source
  leave_own_hand ev local hand' u k own f colored h written =
      let v = add_to_hand_count_chart ev.source_player (negsuc 0) u in
      let w = Shows-chart ev.source_player (negsuc 0) u h in
      let x = Written-chart ev.source_player (negsuc 0) u written in
      elim (find_and_remove_card_lem v.player_hand ev.card) [
        | inl (z, _) ↦ absurd (
            omega
              (arith, z, w.hand_is (is_equal ev.card), f (is_equal ev.card), one-is_equal ev.card))
        | inr (r, removed, c) ↦
            let done =
              Ends-widget {hand = hand'} (record v { player_hand = r }) colored x.cells_written
                (record {
                  hand_is = λ p. omega (arith, c p, w.hand_is p, f p);
                  pile_is = w.pile_is;
                  percent_is = w.percent_is;
                  counts_are = w.counts_are;
                  cells = w.cells;
                }) in
            record {
              ui = done.ui;
              returns =
                  ground (arith, k, eq_iff local ev.source_player, own, removed, done.returns);
              shows = done.shows;
              written = done.written;
            }
      ]

  pub leave_other_hand :
      (ev : CardTransferEvent) (local : String) (u : ClientUi)
      → ev.source ≡ player_hand
      → local ≢ ev.source_player
      → Shows hand rest percent counts u
      → Written u
      → GoesOn hand rest percent
          (added ev.source_player (negsuc 0) counts)
          (leave_source ev local u)
  unfolding leave_source
  leave_other_hand ev local u k other h w = record {
    ui = add_to_hand_count_chart ev.source_player (negsuc 0) u;
    returns = ground (arith, k, eq_iff local ev.source_player, other);
    shows = Shows-chart ev.source_player (negsuc 0) u h;
    written = Written-chart ev.source_player (negsuc 0) u w;
  }

-- The handler, where its first half goes on.
pub Ends-handle :
    {hand rest hand' rest' last_hand last_rest : Deck} {percent percent' last_percent : ℤ}
    {counts counts' last_counts : List (String × ℤ)} (s : Sorter) (ev : CardTransferEvent)
    (local : String) (u : ClientUi)
    → ((v : ClientUi)
        → Shows hand rest percent counts v
        → Written v
        → GoesOn hand' rest' percent' counts' (leave_source ev local v))
    → ((v : ClientUi)
        → Shows hand' rest' percent' counts' v
        → Written v
        → Ends last_hand last_rest last_percent last_counts (reach_sink s ev local v))
    → Shows hand rest percent counts u
    → Written u
    → Ends last_hand last_rest last_percent last_counts (handle_card_transfer_event s ev local u)
unfolding handle_card_transfer_event
Ends-handle s ev local u leave reach h w =
    let logged =
      append_event_log_no_lock
        (join (
          "handleCardTransferEvent: "
          ∷ card_transfer_string ev local
          ∷ ", localPlayerName: "
          ∷ local
          ∷ []))
        u in
    let first = leave logged (Shows-append_event_log _ u h) (Written-append_event_log _ u w) in
    Ends-same (ground (arith, first.returns)) (reach first.ui first.shows first.written)
