-- ===== src/Event.antt =====
-- game_event.go: what the table tells the user interface through its channel.
pub mod Messages
use uknow.Prelude.{Bool, false, String, if◌then◌else◌}
use uknow.Card.{Card, Color}
use uknow.Deck.{Deck}

pub data CardTransferNode : Type 0 where
  deck pile player_hand : CardTransferNode

pub record CardTransferEvent : Type 0 where
  pub source : CardTransferNode
  pub sink : CardTransferNode
  pub source_player : String
  pub sink_player : String
  pub card : Card
  pub is_from_local_client : Bool

pub record SkipCardActionEvent : Type 0 where
  pub player : String
  pub skipped_player : String
  pub next_player : String
  pub is_from_local_client : Bool

pub record DrawTwoCardActionEvent : Type 0 where
  pub player : String
  pub skipped_player : String
  pub next_player : String
  pub is_from_local_client : Bool

pub record ReverseCardActionEvent : Type 0 where
  pub player : String
  pub denied_player : String
  pub next_player : String
  pub is_from_local_client : Bool

pub record AwaitingWildCardColorDecisionEvent : Type 0 where
  pub player : String
  pub is_draw4 : Bool
  pub ask_decision_from_local_player : Bool
  pub is_from_local_client : Bool

pub record ChallengerSuccessEvent : Type 0 where
  pub challenger_name : String
  pub wild_draw4_player_name : String
  pub eligible_cards : Deck
  pub is_from_local_client : Bool

pub record ChallengerFailedEvent : Type 0 where
  pub challenger_name : String
  pub wild_draw4_player_name : String
  pub is_from_local_client : Bool

pub record AwaitingPlayOrPassEvent : Type 0 where
  pub player : String
  pub ask_decision_from_local_player : Bool
  pub is_from_local_client : Bool

pub record PlayerPassedTurnEvent : Type 0 where
  pub player : String
  pub player_of_next_turn : String
  pub is_from_local_client : Bool

pub record PlayerHasWonEvent : Type 0 where
  pub player : String
  pub is_from_local_client : Bool

pub record RequiredColorUpdatedEvent : Type 0 where
  pub new_color : Color

-- The types that implement the interface `GameEvent` and that the table sends.
pub data GameEvent : Type 0 where
  card_transfer : CardTransferEvent → GameEvent
  skip_card_action : SkipCardActionEvent → GameEvent
  draw_two_card_action : DrawTwoCardActionEvent → GameEvent
  reverse_card_action : ReverseCardActionEvent → GameEvent
  awaiting_wild_card_color_decision : AwaitingWildCardColorDecisionEvent → GameEvent
  challenger_success : ChallengerSuccessEvent → GameEvent
  challenger_failed : ChallengerFailedEvent → GameEvent
  awaiting_play_or_pass : AwaitingPlayOrPassEvent → GameEvent
  player_passed_turn : PlayerPassedTurnEvent → GameEvent
  player_has_won : PlayerHasWonEvent → GameEvent
  required_color_updated : RequiredColorUpdatedEvent → GameEvent

unfoldable pub from_local_client : GameEvent → Bool
from_local_client (card_transfer e) = e.is_from_local_client
from_local_client (skip_card_action e) = e.is_from_local_client
from_local_client (draw_two_card_action e) = e.is_from_local_client
from_local_client (reverse_card_action e) = e.is_from_local_client
from_local_client (awaiting_wild_card_color_decision e) = e.is_from_local_client
from_local_client (challenger_success e) = e.is_from_local_client
from_local_client (challenger_failed e) = e.is_from_local_client
from_local_client (awaiting_play_or_pass e) = e.is_from_local_client
from_local_client (player_passed_turn e) = e.is_from_local_client
from_local_client (player_has_won e) = e.is_from_local_client
from_local_client (required_color_updated e) = false

unfoldable pub game_event_name : GameEvent → String
game_event_name (card_transfer e) = "CardTransferEvent"
game_event_name (skip_card_action e) = "SkipActionEvent"
game_event_name (draw_two_card_action e) = "Draw2ActionEvent"
game_event_name (reverse_card_action e) = "ReverseActionEvent"
game_event_name (awaiting_wild_card_color_decision e) =
    if e.is_draw4
    then "AwaitingWildCardColorDecisionEvent(Draw4=True)"
    else "AwaitingWildCardColorDecisionEvent(Draw4=False)"
game_event_name (challenger_success e) = "ChallengerSuccessEvent"
game_event_name (challenger_failed e) = "ChallengerFailedEvent"
game_event_name (awaiting_play_or_pass e) = "AwaitingPlayOrPassEvent"
game_event_name (player_passed_turn e) = "PlayerPassedTurnEvent"
game_event_name (player_has_won e) = "PlayerHasWonEvent"
game_event_name (required_color_updated e) = "RequiredColorUpdatedEvent"
