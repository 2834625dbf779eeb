-- ===== src/Screen/Hands/Starting.antt =====
-- The cards on the screen when the table is set up on it.
use uknow.Prelude.{
  ℕ, zero, suc, ◌<◌, String, List, [], ◌∷◌, none, some, map, if◌then◌else◌, length, get_elem?,
  lookup_or, join,
}
use uknow.Prelude.Int.{ℤ, pos, is_negative}
use uknow.Deck.{Sorter}
use uknow.Table.{Table}
use uknow.Table.Seats.{player_count}
use uknow.Table.Direction.{IsDirection, seat_after, seat_before}
use uknow.Screen.{ClientUi, append_event_log_no_lock}
use uknow.Screen.Hands.{names_text}
use uknow.Screen.Hands.Chart.{counted}

-- The seat that plays after the seat, in the direction of the table.
abbrev pub next_seat : Table → ℕ → ℕ
next_seat t i =
    if is_negative t.direction
    then seat_before i (player_count t)
    else seat_after i (player_count t)

-- The seats in turn, from the seat on.
abbrev pub turn_seats : Table → ℕ → ℕ → List ℕ
turn_seats t zero i = []
turn_seats t (suc rounds) i = i ∷ turn_seats t rounds (next_seat t i)

abbrev pub name_at : Table → ℕ → String
name_at t i = elim (get_elem? t.player_names i) [ none ↦ "" | some name ↦ name ]

-- The seat that the map has for the player who is to play.
abbrev pub seat_of_turn : Table → ℕ
seat_of_turn t = lookup_or 0 t.player_of_next_turn t.index_of_player

-- Everyone's name, in turn.
abbrev pub names_in_turn : Table → List String
names_in_turn t = map (name_at t) (turn_seats t (player_count t) (seat_of_turn t))

module _ (s : Sorter) (t : Table) (local : String) (u : ClientUi)
    (direction : IsDirection t.direction) (seated : seat_of_turn t < player_count t) where
  abbrev chart : List (String × ℤ)
  chart = counted t (names_in_turn t)

  abbrev charted : ClientUi
  charted =
      append_event_log_no_lock
        (join ("Handcount chart labels set to: [" ∷ names_text chart ∷ "]" ∷ []))
        (record u { hand_counts = chart })

  abbrev with_pile : ClientUi
  with_pile = record charted {
    draw_deck_percent = pos (length t.draw_deck);
    discard_pile = t.discarded_pile;
  }
