-- ===== src/Client.antt =====
-- player_client: the player's side of the game. What the client tells the user interface, posts to
-- the server or leaves to a goroutine is kept in lists, oldest first. Log lines are left out.
pub mod Asking
pub mod Events
pub mod Commands
pub mod Replay
pub mod Untouched
pub mod Copies
pub mod Steps
pub mod Chosen
use uknow.Prelude.{
  ℕ, zero, Bool, true, false, String, List, [], ◌∷◌, ◌++◌, Option, none, some, Outcome, ok, err,
  panic, StringMap,
}
use uknow.Event.{GameEvent}
use uknow.Table.{Table, TableError}
use uknow.Address.{HostPortProtocol}
use uknow.Admin.Server.{PlayerDecisionsRequest, SetReadyMessage}

pub data PlayerClientState : Type 0 where
  waiting_to_connect_to_admin waiting_for_admin_to_serve_cards : PlayerClientState
  waiting_for_admin_to_choose_player asking_user_for_decision : PlayerClientState
  waiting_for_decision_sync : PlayerClientState

abbrev pub is_waiting_to_connect : PlayerClientState → Bool
is_waiting_to_connect waiting_to_connect_to_admin = true
is_waiting_to_connect _ = false

abbrev pub is_waiting_for_cards : PlayerClientState → Bool
is_waiting_for_cards waiting_for_admin_to_serve_cards = true
is_waiting_for_cards _ = false

abbrev pub is_waiting_for_choice : PlayerClientState → Bool
is_waiting_for_choice waiting_for_admin_to_choose_player = true
is_waiting_for_choice _ = false

abbrev pub is_waiting_for_sync : PlayerClientState → Bool
is_waiting_for_sync waiting_for_decision_sync = true
is_waiting_for_sync _ = false

-- The error of the table, `ErrShouldNotHappen` and `ErrorUnimplementedReplCommand`.
pub data ClientError : Type 0 where
  table_error : TableError → ClientError
  should_not_happen unimplemented_repl_command : ClientError

-- `UICommandAskUserForDecision`, less its channels and the two unused fields.
pub record UiCommandAskUserForDecision : Type 0 where
  pub challengeable_player : String

pub record AskUserForDecisionResult : Type 0 where
  pub ask_for_one_more_decision : Bool
  pub error : Option ClientError

pub record AddNewPlayersMessage : Type 0 where
  pub player_names : List String
  pub client_listen_addrs : List HostPortProtocol

-- `msg.Add(playerName, clientHost, clientPort, protocol)`
abbrev pub add_new_player : AddNewPlayersMessage → String → HostPortProtocol → AddNewPlayersMessage
add_new_player msg player_name host = record {
  player_names = msg.player_names ++ player_name ∷ [];
  client_listen_addrs = msg.client_listen_addrs ++ host ∷ [];
}

-- What the client posts to the server.
pub data Post : Type 0 where
  post_player : AddNewPlayersMessage → Post
  post_set_ready : SetReadyMessage → Post
  post_player_decisions : PlayerDecisionsRequest → Post
  post_ack_player_added : String → String → Post
  post_ack_decision_sync : String → ℕ → Post

-- The goroutines that the client starts.
pub data ClientJob : Type 0 where
  ask_and_run_decisions : ℕ → ClientJob
  connect : AddNewPlayersMessage → HostPortProtocol → ClientJob
  note_players : List String → ClientJob

pub record Client : Type 0 where
  pub table : Table
  pub client_state : PlayerClientState
  pub neighbor_listen_addr : StringMap HostPortProtocol
  pub admin_addr : HostPortProtocol
  pub advertise_ip : String
  pub asked : List UiCommandAskUserForDecision
  pub answered : List AskUserForDecisionResult
  pub served : List Table
  pub game_events : List GameEvent
  pub posted : List (HostPortProtocol × Post)
  pub jobs : List ClientJob

unfoldable pub new_player_client : Table → HostPortProtocol → String → Client
new_player_client t default_admin_addr advertise_ip = record {
  table = t;
  client_state = waiting_to_connect_to_admin;
  neighbor_listen_addr = [];
  admin_addr = default_admin_addr;
  advertise_ip = advertise_ip;
  asked = [];
  answered = [];
  served = [];
  game_events = [];
  posted = [];
  jobs = [];
}

abbrev pub in_client_state : PlayerClientState → Client → Client
in_client_state state c = record c { client_state = state }

abbrev pub post_to : HostPortProtocol → Post → Client → Client
post_to addr p c = record c { posted = c.posted ++ (addr, p) ∷ [] }

-- To `c.adminAddr`.
abbrev pub post : Post → Client → Client
post p c = post_to c.admin_addr p c

abbrev pub go_run : ClientJob → Client → Client
go_run job c = record c { jobs = c.jobs ++ job ∷ [] }

-- `resp.StatusCode`, or an error of the request.
pub data Response : Type 0 where
  no_response status_ok status_see_other other_status : Response
