-- ===== src/Examples/CardRuns.antt =====
-- The theorems on cards, decks and the cards of a table at concrete inputs.
use uknow.Prelude.{◌≡◌, [], ◌∷◌, count, length}
use uknow.Card.{Card, card, is_equal}
use uknow.Deck.{new_full_deck}
use uknow.Deck.Full.{copies, count-new_full_deck}
use uknow.Table.{PlayerDecision, pull_from_deck}
use uknow.Table.Cards.{count_cards, eval_player_decisions-conserves}
use uknow.Table.Decide.{eval_player_decisions}
use uknow.Examples.{insertion, three_players, game_of}

count-new_full_deck_example :
    ((c : Card) → count (is_equal c) (new_full_deck insertion) ≡ copies c)
    × (length (new_full_deck insertion) ≡ 108)
count-new_full_deck_example = count-new_full_deck insertion

abbrev draw : PlayerDecision
draw = record { kind = pull_from_deck; result_card = card 0 0; wild_card_chosen_color = 0 }

eval_player_decisions-conserves_example :
    count_cards
      (is_equal (card 2 2))
      (eval_player_decisions insertion "bob" (draw ∷ draw ∷ []) (game_of three_players)).1.table
    ≡ 1
eval_player_decisions-conserves_example =
    eval_player_decisions-conserves insertion "bob" (draw ∷ draw ∷ []) (game_of three_players)
      (is_equal (card 2 2))
