-- ===== src/Client/Events.antt =====
-- player_client_sse.go and player_client.go: what the client does with the events of the server, as
-- they come on the stream and as they came as requests. A handler has the mutex of the state.
use uknow.Prelude.{
  ℕ, Bool, true, false, not, String, List, [], ◌∷◌, ◌++◌, Option, none, some, Outcome, ok, err,
  panic, StringMap, if◌then◌else◌, str_eq, insert,
}
use uknow.Prelude.Int.{pos}
use uknow.Deck.{Sorter}
use uknow.Table.{Table, set_table}
use uknow.Table.Decide.{eval_player_decisions}
use uknow.Address.{HostPortProtocol}
use uknow.Admin.Server.{PlayerDecisionsRequest}
use uknow.Client.{
  Client, in_client_state, post, go_run, is_waiting_for_cards, is_waiting_for_choice,
  is_waiting_for_sync, post_ack_player_added, post_ack_decision_sync, ask_and_run_decisions,
  note_players, waiting_for_admin_to_serve_cards, waiting_for_admin_to_choose_player,
  asking_user_for_decision, waiting_for_decision_sync,
}

pub data ServerEvent : Type 0 where
  player_joined : String → ServerEvent
  existing_players_list : List String → ServerEvent
  served_cards : Table → ServerEvent
  chosen_player : String → ℕ → ServerEvent
  player_decisions_sync : PlayerDecisionsRequest → ServerEvent

-- One ack for each name. The requests run side by side; here they are posted in the order of the list.
unfoldable pub note_each_player : List String → Client → Client
note_each_player [] c = c
note_each_player (name ∷ names) c =
    note_each_player names (post (post_ack_player_added c.table.local_player_name name) c)

abbrev no_address : HostPortProtocol
no_address = record { ip = ""; port = pos 0; protocol = "" }

unfoldable pub on_player_joined : String → Client → Client
on_player_joined name c =
    note_each_player (name ∷ [])
      (record c { neighbor_listen_addr = insert name no_address c.neighbor_listen_addr })

-- The table that came, with the name of its owner.
abbrev own : Client → Table → Table
own c t = record t { local_player_name = c.table.local_player_name }

-- `sendCommandToUI` with the served table: whether the user interface takes it in time is an argument.
abbrev send_command_to_ui : Bool → Table → Client → Client
send_command_to_ui true t c = record c { served = c.served ++ t ∷ [] }
send_command_to_ui false t c = c

-- What follows the check of the state, on the stream and as a request.
abbrev take_cards : Bool → Table → Client → Client
take_cards taken t c =
    in_client_state waiting_for_admin_to_choose_player
      (send_command_to_ui taken (own c t) (record c { table = set_table c.table (own c t) }))

unfoldable pub on_served_cards : Bool → Table → Client → Client
on_served_cards taken t c =
    if not (is_waiting_for_cards c.client_state) then c else take_cards taken t c

-- The state stays as it is when the local player is chosen.
unfoldable pub on_chosen_player : String → ℕ → Client → Client
on_chosen_player name counter c =
    if not (is_waiting_for_choice c.client_state)
    then c
    else if str_eq c.table.local_player_name name
    then go_run (ask_and_run_decisions counter) c
    else in_client_state waiting_for_decision_sync c

abbrev panics {ℓ} : {E : Type 0} {A : Type ℓ} → Outcome E A → Bool
panics (ok _) = false
panics (err _) = false
panics panic = true

-- The error of the evaluation is dropped. The truth value tells whether it panics.
abbrev apply_decisions : Sorter → PlayerDecisionsRequest → Client → Bool × Client
apply_decisions s ev c =
    let (r, g) =
      eval_player_decisions s ev.deciding_player ev.decisions
        (record { table = c.table; sent = c.game_events }) in
    (panics r, record c { table = g.table; game_events = g.sent })

-- Whether the post of the ack succeeds changes nothing.
abbrev ack_player_sync : ℕ → Client → Client
ack_player_sync counter c = post (post_ack_decision_sync c.table.local_player_name counter) c

unfoldable pub on_player_decisions_sync : Sorter → PlayerDecisionsRequest → Client → Option Client
on_player_decisions_sync s ev c =
    if str_eq ev.deciding_player c.table.local_player_name
    then some c
    else if not (is_waiting_for_sync c.client_state)
    then some c
    else (let (crashed, c') = apply_decisions s ev c in
        if crashed
        then none
        else some (
            in_client_state waiting_for_admin_to_choose_player
              (ack_player_sync ev.decision_event_counter c')))

-- A round of the loop of `sseController`. A list of players has no case there. `none` is the end of
-- the process.
unfoldable pub on_server_event : Sorter → Bool → ServerEvent → Client → Option Client
on_server_event s taken (player_joined name) c = some (on_player_joined name c)
on_server_event s taken (existing_players_list names) c = some c
on_server_event s taken (served_cards t) c = some (on_served_cards taken t c)
on_server_event s taken (chosen_player name counter) c = some (on_chosen_player name counter c)
on_server_event s taken (player_decisions_sync ev) c = on_player_decisions_sync s ev c

-- The lines after the first one; `none` in the list is a line that is no event.
unfoldable pub run_events : Sorter → List (Option ServerEvent × Bool) → Client → Option Client
run_events s [] c = some c
run_events s ((none, _) ∷ lines) c = run_events s lines c
run_events s ((some ev, taken) ∷ lines) c = elim (on_server_event s taken ev c) [
  | none ↦ none
  | some c' ↦ run_events s lines c'
]

-- The first line must be the list of the players; what it is not ends the controller.
unfoldable pub sse_controller :
    Sorter → Option (List String) → List (Option ServerEvent × Bool) → Client → Option Client
sse_controller s none lines c = some c
sse_controller s (some names) lines c =
    run_events s lines (in_client_state waiting_for_admin_to_serve_cards (note_each_player names c))

-- The answers of the client's own handlers.
pub data ClientReply : Type 0 where
  reply_ok reply_bad_request reply_internal_error reply_crashed : ClientReply

unfoldable pub handle_served_cards_event : Bool → Option Table → Client → ClientReply × Client
handle_served_cards_event taken body c = elim body [
  | none ↦ (reply_internal_error, c)
  | some t ↦
      if not (is_waiting_for_cards c.client_state)
      then (reply_bad_request, c)
      else (reply_ok, take_cards taken t c)
]

unfoldable pub handle_chosen_player_event : Option (String × ℕ) → Client → ClientReply × Client
handle_chosen_player_event body c = elim body [
  | none ↦ (reply_internal_error, c)
  | some (name, counter) ↦
      if not (is_waiting_for_choice c.client_state)
      then (reply_bad_request, c)
      else if str_eq c.table.local_player_name name
      then (
        reply_ok,
        go_run (ask_and_run_decisions counter) (in_client_state asking_user_for_decision c),
      )
      else (reply_ok, in_client_state waiting_for_decision_sync c)
]

unfoldable pub handle_player_decisions_sync_event :
    Sorter → Option PlayerDecisionsRequest → Client → ClientReply × Client
handle_player_decisions_sync_event s body c = elim body [
  | none ↦ (reply_internal_error, c)
  | some ev ↦
      if str_eq ev.deciding_player c.table.local_player_name
      then (reply_ok, c)
      else if not (is_waiting_for_sync c.client_state)
      then (reply_bad_request, c)
      else (let (crashed, c') = apply_decisions s ev c in
          if crashed
          then (reply_crashed, c')
          else (reply_ok, in_client_state waiting_for_admin_to_choose_player c'))
]

-- The players are noted later, by a goroutine.
unfoldable pub handle_add_new_players : Option (List String) → Client → ClientReply × Client
handle_add_new_players body c = elim body [
  | none ↦ (reply_bad_request, c)
  | some names ↦ (reply_ok, go_run (note_players names) c)
]

-- The names that joined, with the addresses that are kept of them.
unfoldable pub handle_get_players : Client → StringMap HostPortProtocol
handle_get_players c = c.neighbor_listen_addr
