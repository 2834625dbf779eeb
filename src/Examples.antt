-- ===== src/Examples.antt =====
-- Concrete sortings, decks and tables, at which the children of this module apply the theorems.
pub mod CardRuns
pub mod TurnRuns
pub mod ServerRuns
pub mod DealRuns
pub mod HistoryRuns
pub mod ReplRuns
pub mod HandRuns
pub mod AckRuns
pub mod ChallengeRuns
pub mod PhaseRuns
pub mod ClientRuns
pub mod RoundRuns
pub mod PromptRuns
pub mod TurnOverRuns
pub mod WireRuns
pub mod ScreenRuns
use uknow.Prelude.{
  ℕ, ◌+◌, ◌≡◌, refl, Bool, List, [], ◌∷◌, arith, if◌then◌else◌, count, Outcome, ok, err, panic,
  StringMap,
}
use uknow.Prelude.Int.{ℤ, pos, negsuc}
use uknow.Card.{Card, card, is_less_than}
use uknow.Deck.{Deck, Sorter}
use uknow.Table.{Table, TableState, start_of_turn, awaiting_drop_or_pass}
use uknow.Table.Game.{Game}

-- Insertion sort by `IsLessThan`.
unfoldable pub place : Card → Deck → Deck
place c [] = c ∷ []
place c (d ∷ ds) = if is_less_than c d then c ∷ d ∷ ds else d ∷ place c ds

unfoldable pub place_all : Deck → Deck
unfolding place
place_all [] = []
place_all (c ∷ d) = place c (place_all d)

count-place : (p : Card → Bool) (c : Card) (d : Deck) → count p (place c d) ≡ count p (c ∷ d)
unfolding place
count-place p c [] = refl
count-place p c (d ∷ ds) = ground (arith, count-place p c ds)

pub count-place_all : (p : Card → Bool) (d : Deck) → count p (place_all d) ≡ count p d
unfolding place_all
count-place_all p [] = refl
count-place_all p (c ∷ d) = ground (arith, count-place_all p d, count-place p c (place_all d))

abbrev pub insertion : Sorter
insertion = record { sort_deck = place_all; sort_deck_counts = count-place_all }

-- Three players in the middle of a game; it is the turn of "bob".
abbrev pub three_players : Table
three_players = record {
  draw_deck = card 1 1 ∷ card 5 2 ∷ card 9 3 ∷ card 14 0 ∷ card 7 4 ∷ card 2 2 ∷ [];
  discarded_pile = card 3 1 ∷ card 5 1 ∷ [];
  index_of_player = ("ann", 0) ∷ ("bob", 1) ∷ ("cyd", 2) ∷ [];
  hand_of_player =
      ("ann", card 8 1 ∷ card 14 0 ∷ [])
      ∷ ("bob", card 5 3 ∷ card 11 1 ∷ card 10 1 ∷ [])
      ∷ ("cyd", card 4 4 ∷ [])
      ∷ [];
  player_names = "ann" ∷ "bob" ∷ "cyd" ∷ [];
  local_player_name = "ann";
  shuffler_name = "ann";
  player_of_next_turn = "bob";
  player_of_last_turn = "ann";
  direction = pos 1;
  turns_completed = pos 0;
  table_state = start_of_turn;
  is_shuffled = Bool.true;
  required_color_of_current_turn = 1;
  required_color_of_last_turn = 1;
  required_number_of_current_turn = 5;
  required_number_of_last_turn = 3;
  required_number_before_wild4 = 0;
  winner_player_name = "";
}

abbrev pub game_of : Table → Game
game_of t = record { table = t; sent = [] }

-- After a Reverse card.
abbrev pub reversed_table : Table
reversed_table = record three_players { direction = negsuc 0 }

-- After "bob" drew a card.
abbrev pub drawn_table : Table
drawn_table = record three_players { table_state = awaiting_drop_or_pass }
