-- ===== src/Event/Messages.antt =====
-- game_event.go: the texts that tell a player of an event, and two events that nothing sends.
use uknow.Prelude.{
  Bool, true, false, String, List, [], ◌∷◌, Option, none, some, str_eq, if◌then◌else◌, join,
}
use uknow.Card.{Card, color_string}
use uknow.Card.Printing.{card_string, symbol_string}
use uknow.Event.{
  CardTransferNode, CardTransferEvent, SkipCardActionEvent, DrawTwoCardActionEvent,
  ReverseCardActionEvent, AwaitingWildCardColorDecisionEvent, ChallengerSuccessEvent,
  ChallengerFailedEvent, AwaitingPlayOrPassEvent, PlayerPassedTurnEvent, PlayerHasWonEvent,
  RequiredColorUpdatedEvent, deck, pile, player_hand,
}

-- `changeIfSelf`, and whether the name is the local player's.
unfoldable pub change_if_self : String → String → String × Bool
change_if_self player_name local_player_name =
    if str_eq player_name local_player_name
    then (join ("You(" ∷ local_player_name ∷ ")" ∷ []), true)
    else (player_name, false)

abbrev shown : String → String → String
shown local player_name = (change_if_self player_name local).0

abbrev node_name : CardTransferNode → String → String
node_name deck player = "deck"
node_name pile player = "pile"
node_name player_hand player = join ("player " ∷ player ∷ [])

unfoldable pub card_transfer_string : CardTransferEvent → String → String
card_transfer_string c local = join (
    "Card transfer from "
    ∷ shown local (node_name c.source c.source_player)
    ∷ " to "
    ∷ shown local (node_name c.sink c.sink_player)
    ∷ ", card: "
    ∷ card_string c.card
    ∷ [])

unfoldable pub skip_message : SkipCardActionEvent → String → String
skip_message e local = join (
    shown local e.player
    ∷ " played a skip-card, skipping "
    ∷ shown local e.skipped_player
    ∷ ", making "
    ∷ shown local e.next_player
    ∷ " the next player"
    ∷ [])

unfoldable pub draw_two_message : DrawTwoCardActionEvent → String → String
draw_two_message e local = join (
    shown local e.player
    ∷ " played a draw-2-card, skipping and adding cards to "
    ∷ shown local e.skipped_player
    ∷ ", making "
    ∷ shown local e.next_player
    ∷ " the next player"
    ∷ [])

unfoldable pub reverse_message : ReverseCardActionEvent → String → String
reverse_message e local = join (
    shown local e.player
    ∷ " played a reverse-card, skipping "
    ∷ shown local e.denied_player
    ∷ " and making "
    ∷ shown local e.next_player
    ∷ " the next player"
    ∷ [])

-- `%v` of a truth value.
abbrev bool_string : Bool → String
bool_string true = "true"
bool_string false = "false"

unfoldable pub awaiting_color_message : AwaitingWildCardColorDecisionEvent → String → String
awaiting_color_message e local =
    if str_eq local e.player
    then join (
        "Need wild card (draw4="
        ∷ bool_string e.is_draw4
        ∷ ") color decision from You("
        ∷ local
        ∷ ")"
        ∷ [])
    else join (
        "Need wild card color(draw4=" ∷ bool_string e.is_draw4 ∷ ") decision from " ∷ e.player ∷ [])

-- The loop over the eligible cards. `none` is the panic of a color out of range.
unfoldable pub symbols_string : List Card → Option String
symbols_string [] = some ""
symbols_string (c ∷ cs) = elim (symbol_string c) [
  | none ↦ none
  | some text ↦ elim (symbols_string cs) [
    | none ↦ none
    | some rest ↦ some (join (text ∷ " " ∷ rest ∷ []))
  ]
]

unfoldable pub challenger_success_message : ChallengerSuccessEvent → String → Option String
challenger_success_message e local = elim (symbols_string e.eligible_cards) [
  | none ↦ none
  | some cards ↦ some (
      join (
        shown local e.challenger_name
        ∷ " successfully challenged "
        ∷ shown local e.wild_draw4_player_name
        ∷ ". "
        ∷ shown local e.wild_draw4_player_name
        ∷ " had the following eligible cards he could play: "
        ∷ cards
        ∷ []))
]

unfoldable pub challenger_failed_message : ChallengerFailedEvent → String → String
challenger_failed_message e local = join (
    shown local e.challenger_name
    ∷ " un-successfully challenged "
    ∷ shown local e.wild_draw4_player_name
    ∷ [])

unfoldable pub play_or_pass_message : AwaitingPlayOrPassEvent → String → String
play_or_pass_message e local =
    join ("awaiting for card play or pass from " ∷ shown local e.player ∷ [])

unfoldable pub passed_message : PlayerPassedTurnEvent → String → String
passed_message e local =
    join (shown local e.player ∷ " passed turn, next player is " ∷ e.player_of_next_turn ∷ [])

unfoldable pub won_message : PlayerHasWonEvent → String → String
won_message e local =
    let (player_name, you) = change_if_self e.player local in
    if you
    then join (player_name ∷ " are the winner" ∷ [])
    else join (player_name ∷ " is the winner" ∷ [])

unfoldable pub color_message : RequiredColorUpdatedEvent → String → String
color_message e local = join ("Color of turn: " ∷ color_string e.new_color ∷ [])

pub record WildCardActionEvent : Type 0 where
  pub player : String
  pub is_from_local_client : Bool

unfoldable pub wild_message : WildCardActionEvent → String → String
wild_message e local = join (shown local e.player ∷ " played a wild card" ∷ [])

pub record WildCardColorChosenEvent : Type 0 where
  pub player : String
  pub chosen_color : Card
  pub is_from_local_client : Bool

unfoldable pub color_chosen_message : WildCardColorChosenEvent → String → String
color_chosen_message e local =
    join (shown local e.player ∷ " chose wild card color to be " ∷ card_string e.chosen_color ∷ [])
