-- ===== src/Examples/ScreenRuns.antt =====
-- The theorems on the screen at concrete tables.
use uknow.Prelude.{
  Bool, count, sym, ap, ◌∙◌, split_lines, decimal_from, ◌≤◌, ◌≡◌, ◌≢◌, refl, true, false, String,
  List, [], ◌∷◌, ◌++◌, ok, zero, suc, some, arith, length, eq_iff, str_eq, lookup, lookup_or,
}
use uknow.Prelude.Int.{pos}
use uknow.Card.{Card, card}
use uknow.Card.Printing.{symbol_string, number_string}
use uknow.Deck.{top, must_pop, must_find_card, find_card, find_from}
use uknow.Event.{card_transfer}
use uknow.Table.{hand_of}
use uknow.Table.Eval.{pull_card}
use uknow.Table.Play.{drop_card, send_dropped}
use uknow.Client.{UiCommandAskUserForDecision}
use uknow.Screen.{ClientUi, init_ui, newest_first, max_lines_in_event_log, we_have_a_winner}
use uknow.Screen.Log.{append_all, last_lines, all_lines, append_all-last_lines}
use uknow.Screen.Hands.{init_table_elements, hand_text, handle_card_transfer_event}
use uknow.Screen.Hands.Cells.{AllColored, CellsShow}
use uknow.Screen.Hands.Chart.{AllDistinct}
use uknow.Screen.Hands.Evaluations.{Mirrors, Mirrored, pull_event, pull_card-Mirrored}
use uknow.Screen.Hands.Evaluations.Played.{drop_event, drop_card-Mirrored}
use uknow.Screen.Inputs.{Words, handle_ask}
use uknow.Screen.Inputs.Winner.{UiStep, Quiet, question, UiStep-won}
use uknow.Examples.{place_all, place, insertion, three_players, game_of}

starts_empty : init_ui.event_log_lines ≡ []
unfolding init_ui
starts_empty = refl

append_all-last_lines_example :
    let v = append_all (("one\ntwo" ∷ []) ++ "three" ∷ []) init_ui in
    (v.event_log_lines
      ≡ last_lines max_lines_in_event_log (all_lines (("one\ntwo" ∷ []) ++ "three" ∷ [])))
    × (length v.event_log_lines ≤ max_lines_in_event_log)
    × (v.event_log_text ≡ newest_first v.event_log_lines)
append_all-last_lines_example = append_all-last_lines ("one\ntwo" ∷ []) "three" init_ui starts_empty

abbrev names : List String
names = "bob" ∷ "cyd" ∷ "ann" ∷ []

apart : (a b : String) → str_eq a b ≡ false → a ≢ b
apart a b f e = ground (arith, eq_iff a b, f, e)

distinct : AllDistinct names
distinct = (
  (apart "bob" "cyd" refl, (apart "bob" "ann" refl, tt)),
  ((apart "cyd" "ann" refl, tt), (tt, tt)),
)

-- The screen of "bob".
abbrev screen : ClientUi
screen = record init_ui {
  draw_deck_percent = pos 6;
  hand_counts = ("bob", pos 3) ∷ ("cyd", pos 1) ∷ ("ann", pos 2) ∷ [];
  discard_pile = card 3 1 ∷ card 5 1 ∷ [];
  player_hand = card 5 3 ∷ card 10 1 ∷ card 11 1 ∷ [];
  discard_pile_cells =
      "_" ∷ "_" ∷ "_" ∷ "_" ∷ "_" ∷ "_" ∷ "_" ∷ "_" ∷ "_" ∷ "_" ∷ "⟨🔴.5⟩" ∷ "⟨🔴.3⟩" ∷ [];
  self_hand_text = "⟨🔵.5⟩ ⟨🔴.⊘⟩ ⟨🔴.↺⟩ ";
  event_log_lines = "Handcount chart labels set to: [bob cyd ann]" ∷ [];
  event_log_text = "Handcount chart labels set to: [bob cyd ann]\n";
}

-- It is what is set up for the table.
screen_is_set_up : init_table_elements insertion three_players "bob" init_ui ≡ ok screen
unfolding init_table_elements init_ui place_all place lookup_or lookup symbol_string number_string
    split_lines decimal_from
screen_is_set_up = refl

colored : (name : String) → AllColored (hand_of name three_players)
unfolding lookup_or lookup
colored name = ground arith

red_3 : symbol_string (card 3 1) ≡ some "⟨🔴.3⟩"
unfolding symbol_string number_string decimal_from
red_3 = refl

red_5 : symbol_string (card 5 1) ≡ some "⟨🔴.5⟩"
unfolding symbol_string number_string decimal_from
red_5 = refl

two_cells : CellsShow (card 3 1 ∷ card 5 1 ∷ []) screen.discard_pile_cells
two_cells zero c e =
    let same : card 3 1 ≡ c = ground (arith, e) in sym red_3 ∙ ap symbol_string same
two_cells (suc zero) c e =
    let same : card 5 1 ≡ c = ground (arith, e) in sym red_5 ∙ ap symbol_string same
two_cells (suc (suc i)) c e = ground (arith, e)

sorted : (p : Card → Bool) → count p screen.player_hand ≡ count p (hand_of "bob" three_players)
unfolding lookup_or lookup
sorted p = omega arith

mirrors : Mirrors "bob" names three_players screen
unfolding hand_text symbol_string lookup_or lookup number_string decimal_from
mirrors = record {
  shows = record {
    hand_is = sorted;
    pile_is = refl;
    percent_is = refl;
    counts_are = refl;
    cells = refl;
  };
  written = record { hand_written = refl; cells_written = two_cells };
  deck_colored = refl;
  pile_colored = refl;
  hands_colored = colored;
}

pulls : (pull_card insertion "cyd" true (game_of three_players)).0 ≡ ok (card 2 2)
unfolding pull_card top must_pop
pulls = refl

pull_card-Mirrored_example :
    ((pull_card insertion "cyd" true (game_of three_players)).1.sent
      ≡ [] ++ card_transfer (pull_event "cyd" true (card 2 2)) ∷ [])
    × Mirrored "bob" names
        (pull_card insertion "cyd" true (game_of three_players)).1.table
        (handle_card_transfer_event insertion (pull_event "cyd" true (card 2 2)) "bob" screen)
pull_card-Mirrored_example =
    pull_card-Mirrored insertion "bob" names distinct "cyd" true (card 2 2) (game_of three_players)
      screen pulls mirrors

drops : (drop_card "bob" (card 5 3) (game_of three_players)).0 ≡ ok tt
unfolding drop_card must_find_card find_card find_from lookup_or lookup
drops = refl

drop_card-Mirrored_example :
    let g' =
      (send_dropped "bob" (card 5 3) (drop_card "bob" (card 5 3) (game_of three_players)).1).1 in
    (g'.sent ≡ [] ++ card_transfer (drop_event "bob" false (card 5 3)) ∷ [])
    × Mirrored "bob" names g'.table
        (handle_card_transfer_event insertion (drop_event "bob" false (card 5 3)) "bob" screen)
drop_card-Mirrored_example =
    drop_card-Mirrored insertion "bob" names distinct "bob" (card 5 3) (game_of three_players)
      screen drops mirrors

-- A question after the win is dropped.
abbrev won : ClientUi
won = record screen { ui_state = we_have_a_winner }

abbrev no_words : Words
no_words = record { tokens_of = λ text. []; parse_error_text = λ e. ""; kind_text = λ kind. "" }

abbrev your_turn : UiCommandAskUserForDecision
your_turn = record { challengeable_player = "" }

asked_late : UiStep insertion no_words "bob" won (handle_ask your_turn won).1
asked_late = question your_turn

won_already : won.ui_state ≡ we_have_a_winner
won_already = refl

UiStep-won_example : Quiet won (handle_ask your_turn won).1
UiStep-won_example = UiStep-won asked_late won_already
