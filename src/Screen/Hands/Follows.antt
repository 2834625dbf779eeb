-- ===== src/Screen/Hands/Follows.antt =====
-- The hand, the pile and the counts on the screen against those of the table.
use mathlib.Core.Path.{subst}
use uknow.Prelude.{
  count-take-drop, ◌-◌, ◌≡◌, sym, ◌∙◌, Bool, String, List, none, some, Outcome, ok, arith, length,
  length-drop, count, drop, some_of,
}
use uknow.Prelude.Int.{ℤ}
use uknow.Card.{Card}
use uknow.Deck.{Deck}
use uknow.Screen.{ClientUi, Deadlock, append_event_log_no_lock, num_cards_to_show_in_pile}
use uknow.Screen.Hands.Cells.{
  is_colorless, AllColored, CellsShow, Filled, fill_cells-Filled, Filled-CellsShow, cards_shown,
  hand_text-some,
}
use uknow.Screen.Hands.{
  hand_text, update_player_hand_widget, refresh_discard_pile_cells, add_count,
  add_to_hand_count_chart,
}

-- The texts on the screen are those of the hand and of the pile that it keeps.
pub record Written (u : ClientUi) : Type 0 where
  pub hand_written : hand_text u.player_hand ≡ some u.self_hand_text
  pub cells_written : CellsShow (cards_shown u.discard_pile) u.discard_pile_cells

-- What the screen keeps of the cards: the hand in any order.
pub record Shows (hand pile : Deck) (percent : ℤ) (counts : List (String × ℤ)) (u : ClientUi)
    : Type 0 where
  pub hand_is : (p : Card → Bool) → count p u.player_hand ≡ count p hand
  pub pile_is : u.discard_pile ≡ pile
  pub percent_is : u.draw_deck_percent ≡ percent
  pub counts_are : u.hand_counts ≡ counts
  pub cells : length u.discard_pile_cells ≡ num_cards_to_show_in_pile

-- The call returns, and then the screen shows this, and it is written.
pub record Ends (hand pile : Deck) (percent : ℤ) (counts : List (String × ℤ))
    (r : Outcome Deadlock ClientUi) : Type 0 where
  pub ui : ClientUi
  pub returns : r ≡ ok ui
  pub shows : Shows hand pile percent counts ui
  pub written : Written ui

-- The counts with the entry of the name changed, if there is one.
abbrev pub added : String → ℤ → List (String × ℤ) → List (String × ℤ)
added name k counts = elim (add_count name k counts) [ none ↦ counts | some changed ↦ changed ]

pub Written-append_event_log :
    (s : String) (u : ClientUi) → Written u → Written (append_event_log_no_lock s u)
unfolding append_event_log_no_lock
Written-append_event_log s u w = record {
  hand_written = w.hand_written;
  cells_written = w.cells_written;
}

pub Written-chart :
    (name : String) (k : ℤ) (u : ClientUi) → Written u → Written (add_to_hand_count_chart name k u)
unfolding add_to_hand_count_chart append_event_log_no_lock
Written-chart name k u w = record {
  hand_written = ground (arith, w.hand_written);
  cells_written = λ i c e. ground (arith, w.cells_written i c, e);
}

module _ {hand rest : Deck} {percent : ℤ} {counts : List (String × ℤ)} where
  pub Shows-append_event_log :
      (s : String) (u : ClientUi)
      → Shows hand rest percent counts u
      → Shows hand rest percent counts (append_event_log_no_lock s u)
  unfolding append_event_log_no_lock
  Shows-append_event_log s u h = record {
    hand_is = h.hand_is;
    pile_is = h.pile_is;
    percent_is = h.percent_is;
    counts_are = h.counts_are;
    cells = h.cells;
  }

  pub Shows-chart :
      (name : String) (k : ℤ) (u : ClientUi)
      → Shows hand rest percent counts u
      → Shows hand rest percent (added name k counts) (add_to_hand_count_chart name k u)
  unfolding add_to_hand_count_chart append_event_log_no_lock
  Shows-chart name k u h = record {
    hand_is = λ p. ground (arith, h.hand_is p);
    pile_is = ground (arith, h.pile_is);
    percent_is = ground (arith, h.percent_is);
    counts_are = ground (arith, h.counts_are);
    cells = ground (arith, h.cells);
  }

  pub Ends-widget :
      (u : ClientUi)
      → AllColored hand
      → CellsShow (cards_shown u.discard_pile) u.discard_pile_cells
      → Shows hand rest percent counts u
      → Ends hand rest percent counts (update_player_hand_widget u)
  unfolding update_player_hand_widget
  Ends-widget u colored cells_written h =
      let (text, e) =
        some_of (hand_text u.player_hand)
          (hand_text-some u.player_hand (h.hand_is is_colorless ∙ colored)) in
      record {
        ui = record u { self_hand_text = text };
        returns = ground (arith, e);
        shows = record {
          hand_is = h.hand_is;
          pile_is = h.pile_is;
          percent_is = h.percent_is;
          counts_are = h.counts_are;
          cells = h.cells;
        };
        written = record { hand_written = e; cells_written = cells_written };
      }

  pub Ends-refresh :
      (u : ClientUi)
      → AllColored rest
      → hand_text u.player_hand ≡ some u.self_hand_text
      → Shows hand rest percent counts u
      → Ends hand rest percent counts (refresh_discard_pile_cells u)
  unfolding refresh_discard_pile_cells
  Ends-refresh u colored hand_written h =
      let low = length u.discard_pile - num_cards_to_show_in_pile in
      let shown = drop low u.discard_pile in
      let clean : count is_colorless shown ≡ 0 = omega (
        arith,
        count-take-drop is_colorless low u.discard_pile,
        subst AllColored (sym h.pile_is) colored,
      ) in
      let f : Filled shown 0 u.discard_pile_cells =
        fill_cells-Filled shown 0 u.discard_pile_cells clean
          (omega (arith, length-drop low u.discard_pile, h.cells)) in
      record {
        ui = record u { discard_pile_cells = f.filled };
        returns = ground (arith, f.returns);
        shows = record {
          hand_is = h.hand_is;
          pile_is = h.pile_is;
          percent_is = h.percent_is;
          counts_are = h.counts_are;
          cells = f.size ∙ h.cells;
        };
        written = record {
          hand_written = hand_written;
          cells_written = Filled-CellsShow shown u.discard_pile_cells f;
        };
      }
