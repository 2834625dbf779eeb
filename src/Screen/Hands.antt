-- ===== src/Screen/Hands.antt =====
-- player_client_ui.go: the hand, the pile and the counts that are shown, and how transfers change them.
pub mod Cells
pub mod Follows
pub mod Chart
pub mod Transfers
pub mod Evaluations
pub mod Starting
use uknow.Prelude.{
  ℕ, zero, suc, ◌+◌, ◌-◌, Bool, true, false, String, List, [], ◌∷◌, ◌++◌, Option, none, some,
  Outcome, ok, err, panic, ◌>>=◌, str_eq, ltb, ◌==◌, if◌then◌else◌, length, get_elem?, set, drop,
  lookup_or, join,
}
use uknow.Prelude.Int.{ℤ, pos, negsuc, ◌+ℤ◌}
use uknow.Card.{Card}
use uknow.Card.Printing.{symbol_string}
use uknow.Deck.{Deck, DeckError, Sorter, push, pop, find_and_remove_card}
use uknow.Event.{CardTransferEvent, CardTransferNode, deck, pile, player_hand}
use uknow.Event.Messages.{card_transfer_string}
use uknow.Table.{Table, TableError, hand_of}
use uknow.Table.Seats.{player_indices_sorted_by_turn, player_at}
use uknow.Screen.{ClientUi, Deadlock, deadlock, append_event_log_no_lock, num_cards_to_show_in_pile}

-- The symbols of the cards, each with a blank. `none` is the panic of a color out of range.
unfoldable pub hand_text : Deck → Option String
hand_text [] = some ""
hand_text (c ∷ d) = elim (symbol_string c) [
  | none ↦ none
  | some text ↦ elim (hand_text d) [
    | none ↦ none
    | some rest ↦ some (join (text ∷ " " ∷ rest ∷ []))
  ]
]

unfoldable pub update_player_hand_widget : ClientUi → Outcome Deadlock ClientUi
unfolding hand_text
update_player_hand_widget u = elim (hand_text u.player_hand) [
  | none ↦ panic
  | some text ↦ ok (record u { self_hand_text = text })
]

-- The loop over the cards to show: the first one goes into the cell before the others.
unfoldable pub fill_cells : List Card → ℕ → List String → Option (List String)
fill_cells [] i cells = some cells
fill_cells (c ∷ cs) i cells = elim (symbol_string c) [
  | none ↦ none
  | some text ↦
      if ltb i (length cells)
      then fill_cells cs (i + 1) (set cells (length cells - i - 1) text)
      else none
]

unfoldable pub refresh_discard_pile_cells : ClientUi → Outcome Deadlock ClientUi
unfolding fill_cells
refresh_discard_pile_cells u =
    let cards_to_show = drop (length u.discard_pile - num_cards_to_show_in_pile) u.discard_pile in
    elim (fill_cells cards_to_show 0 u.discard_pile_cells) [
      | none ↦ panic
      | some cells ↦ ok (record u { discard_pile_cells = cells })
    ]

-- The first entry of the name is changed. `none` is a name that the chart does not have.
unfoldable pub add_count : String → ℤ → List (String × ℤ) → Option (List (String × ℤ))
unfolding ◌+ℤ◌
add_count player_name card_count [] = none
add_count player_name card_count ((name, count) ∷ counts) =
    if str_eq name player_name
    then some ((name, count +ℤ card_count) ∷ counts)
    else elim (add_count player_name card_count counts) [
      | none ↦ none
      | some rest ↦ some ((name, count) ∷ rest)
    ]

unfoldable pub add_to_hand_count_chart : String → ℤ → ClientUi → ClientUi
unfolding add_count append_event_log_no_lock
add_to_hand_count_chart player_name card_count u =
    elim (add_count player_name card_count u.hand_counts) [
      | none ↦
          append_event_log_no_lock
            (join ("addToHandCountChart failed: did not find playerName " ∷ player_name ∷ [])) u
      | some counts ↦ record u { hand_counts = counts }
    ]

-- The names at the indices, each with the size of the hand.
unfoldable pub counts_at : Table → List ℤ → Outcome TableError (List (String × ℤ))
unfolding player_at
counts_at t [] = ok []
counts_at t (index ∷ indices) = do
  player_name ← player_at t index
  rest ← counts_at t indices
  ok ((player_name, pos (length (hand_of player_name t))) ∷ rest)

-- `%v` of the names.
abbrev names_text : List (String × ℤ) → String
names_text [] = ""
names_text ((name, _) ∷ []) = name
names_text ((name, _) ∷ entry ∷ counts) = join (name ∷ " " ∷ names_text (entry ∷ counts) ∷ [])

unfoldable pub sort_hand_count_chart_by_turn : Table → ClientUi → Outcome Deadlock ClientUi
unfolding counts_at player_indices_sorted_by_turn append_event_log_no_lock
sort_hand_count_chart_by_turn t u =
    elim (player_indices_sorted_by_turn t >>= λ indices. counts_at t indices) [
      | ok counts ↦ ok (
          append_event_log_no_lock
            (join ("Handcount chart labels set to: [" ∷ names_text counts ∷ "]" ∷ []))
            (record u { hand_counts = counts }))
      | err _ ↦ panic
      | panic ↦ panic
    ]

unfoldable pub init_table_elements : Sorter → Table → String → ClientUi → Outcome Deadlock ClientUi
unfolding sort_hand_count_chart_by_turn refresh_discard_pile_cells update_player_hand_widget
init_table_elements s t local_player_name u = do
  v ← sort_hand_count_chart_by_turn t u
  w ←
      refresh_discard_pile_cells
        (record v { draw_deck_percent = pos (length t.draw_deck); discard_pile = t.discarded_pile })
  update_player_hand_widget (record w { player_hand = s.sort_deck (hand_of local_player_name t) })

-- The first `switch` of `handleCardTransferEvent`. The truth value tells whether the handler goes on.
unfoldable pub leave_source :
    CardTransferEvent → String → ClientUi → Outcome Deadlock (Bool × ClientUi)
unfolding add_to_hand_count_chart update_player_hand_widget append_event_log_no_lock ◌+ℤ◌
leave_source event local_player_name u = elim event.source [
  | deck ↦ ok (true, record u { draw_deck_percent = u.draw_deck_percent +ℤ negsuc 0 })
  | pile ↦ elim (pop u.discard_pile) [
    | ok rest ↦ ok (true, record u { discard_pile = rest })
    | err _ ↦ ok (
      false,
      append_event_log_no_lock "handleCardTransferEvent failed: Transfer from empty pile" u,
    )
    | panic ↦ panic
  ]
  | player_hand ↦
      let v = add_to_hand_count_chart event.source_player (negsuc 0) u in
      if str_eq local_player_name event.source_player
      then elim (find_and_remove_card v.player_hand event.card) [
        | ok rest ↦
            update_player_hand_widget (record v { player_hand = rest }) >>= λ w. ok (true, w)
        | err _ ↦ err deadlock
        | panic ↦ panic
      ]
      else ok (true, v)
]

-- The second one.
unfoldable pub reach_sink :
    Sorter → CardTransferEvent → String → ClientUi → Outcome Deadlock ClientUi
unfolding add_to_hand_count_chart update_player_hand_widget refresh_discard_pile_cells ◌+ℤ◌
reach_sink s event local_player_name u = elim event.sink [
  | deck ↦ ok (record u { draw_deck_percent = u.draw_deck_percent +ℤ pos 1 })
  | pile ↦
      refresh_discard_pile_cells (record u { discard_pile = push u.discard_pile (event.card ∷ []) })
  | player_hand ↦
      let v = add_to_hand_count_chart event.sink_player (pos 1) u in
      if str_eq local_player_name event.sink_player
      then update_player_hand_widget
          (record v { player_hand = s.sort_deck (push v.player_hand (event.card ∷ [])) })
      else ok v
]

-- A card that is not in the hand makes the handler lock the mutex that it has.
unfoldable pub handle_card_transfer_event :
    Sorter → CardTransferEvent → String → ClientUi → Outcome Deadlock ClientUi
unfolding leave_source reach_sink append_event_log_no_lock
handle_card_transfer_event s event local_player_name u = do
  (goes_on, v) ← leave_source event local_player_name (
      append_event_log_no_lock
        (join (
          "handleCardTransferEvent: "
          ∷ card_transfer_string event local_player_name
          ∷ ", localPlayerName: "
          ∷ local_player_name
          ∷ []))
        u)
  if goes_on then reach_sink s event local_player_name v else ok v
