-- ===== src/Examples/ReplRuns.antt =====
-- The theorems on commands at concrete words.
use uknow.Prelude.{◌≡◌, [], ◌∷◌, ok, arith}
use uknow.Card.{card}
use uknow.Repl.{ident, int}
use uknow.Repl.Printing.{colored, wild_card4, none_left, one_more}
use uknow.Repl.Commands.{parse_command_from_input, drop_command}
use uknow.Repl.Reading.{parse-card_tokens}

parse-card_tokens_example :
    parse_command_from_input "drop 7 red wild4"
      (ident "drop" ∷ int "7" ∷ ident "red" ∷ ident "wild4" ∷ [])
      "ann"
    ≡ ok (drop_command "ann" (card 7 1 ∷ card 14 0 ∷ []))
parse-card_tokens_example =
    parse-card_tokens "drop 7 red wild4" "ann" (card 7 1) (card 14 0 ∷ [])
      (colored (omega arith) (omega arith) (omega arith)) (one_more wild_card4 none_left)
