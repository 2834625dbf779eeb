-- ===== src/Examples/HandRuns.antt =====
-- The theorems on described hands at concrete decks.
use uknow.Prelude.{ℕ, ◌≡◌, ◌<◌, ◌+◌, ◌⊎◌, [], ◌∷◌, ok, err, count}
use uknow.Card.{Card, card, encode_uint32}
use uknow.Deck.{Deck}
use uknow.HandReader.{could_not_remove_card}
use uknow.HandReader.Making.{Counts, count_of, count_cards_from, remove_cards_from_deck}
use uknow.HandReader.Making.Piles.{has_key, remove_cards_from_deck_lem}

abbrev three_cards : Deck
three_cards = card 1 1 ∷ card 2 2 ∷ card 3 3 ∷ []

remove_cards_from_deck_lem_example :
    ((m : Counts) × (remove_cards_from_deck (card 2 2 ∷ []) (count_cards_from three_cards [])
        ≡ ok m)
      × ((key : ℕ)
          → count_of key m + count (has_key key) (card 2 2 ∷ []) ≡ count (has_key key) three_cards))
    ⊎ ((c : Card) × (remove_cards_from_deck (card 2 2 ∷ []) (count_cards_from three_cards [])
          ≡ err (could_not_remove_card c))
        × (count (has_key (encode_uint32 c)) three_cards
            < count (has_key (encode_uint32 c)) (card 2 2 ∷ [])))
remove_cards_from_deck_lem_example = remove_cards_from_deck_lem three_cards (card 2 2 ∷ [])
