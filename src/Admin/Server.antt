-- ===== src/Admin/Server.antt =====
-- admin/admin.go: the handlers of the server and the dispatch of its events. A handler has the mutex
-- of the state from its start to its end. What a goroutine is to do later is an event of a list.
-- Where the code ranges over `sseWriterForPlayer`, the names come in the order of the list.
use Prim.Native.String.{◌++◌ as concat}
use uknow.Prelude.{
  ℕ, Bool, true, false, not, String, List, [], ◌∷◌, ◌++◌, Option, none, some, Outcome, ok, err,
  panic, ◌==◌, if◌then◌else◌, lookup, length, decimal,
}
use uknow.Prelude.Int.{pos}
use uknow.Table.{Table, TableError, PlayerDecision, add_player}
use uknow.Table.Deal.{Rand, shuffle_deck_and_distribute}
use uknow.Admin.Acks.{ExpectedAck, ExpectedAcksList}

pub data AdminState : Type 0 where
  adding_players ready_to_serve_cards cards_served player_chosen_for_turn : AdminState
  waiting_for_player_decision waiting_for_challenge_player_decision : AdminState
  syncing_player_decision done_syncing_player_decision have_winner : AdminState

abbrev pub is_adding : AdminState → Bool
is_adding adding_players = true
is_adding _ = false

abbrev pub is_waiting : AdminState → Bool
is_waiting waiting_for_player_decision = true
is_waiting _ = false

abbrev pub is_done_syncing : AdminState → Bool
is_done_syncing done_syncing_player_decision = true
is_done_syncing _ = false

abbrev pub ack_id_connected_player : String → String → String
ack_id_connected_player acker connected = concat acker (concat "_connected_to_" connected)

abbrev pub ack_id_of_decision_sync_player : String → ℕ → String
ack_id_of_decision_sync_player acker counter = concat acker (concat "_synced_" (decimal counter))

abbrev pub ack_id_waiting_for_player_decision : String → ℕ → String
ack_id_waiting_for_player_decision acker counter =
    concat "waiting_for_decision." (concat acker (concat "." (decimal counter)))

abbrev pub ack_of : String → String → ExpectedAck
ack_of id player = record { ack_id = id; acker_player_name = player }

pub record PlayerDecisionsRequest : Type 0 where
  pub deciding_player : String
  pub decisions : List PlayerDecision
  pub decision_event_counter : ℕ

pub record SetReadyMessage : Type 0 where
  pub shuffler_name : String
  pub shuffler_is_first_player : Bool

-- What a callback of an ack does: it logs, or it counts an ack of the sync with the number.
pub data AckCallback : Type 0 where
  log_ack : AckCallback
  count_synced : ℕ → AckCallback

-- What goroutines are to do: send an event to the controller, or run a new turn.
pub data Goroutine : Type 0 where
  sync_player_joined : String → Goroutine
  send_served_cards send_chosen_player run_new_turn : Goroutine
  sync_player_decision : PlayerDecisionsRequest → Goroutine
  run_callback : AckCallback → Goroutine

-- `remaining` holds for each sync how many acks it still waits for.
pub record Admin : Type 0 where
  pub table : Table
  pub state : AdminState
  pub locked : Bool
  pub sse_writer_for_player : List String
  pub expected_acks_list : ExpectedAcksList AckCallback
  pub acks_received : List ExpectedAck
  pub decision_events_completed : ℕ
  pub remaining : List ℕ
  pub goroutines : List Goroutine

pub data Reply : Type 0 where
  status_ok status_forbidden status_bad_request status_see_other : Reply
  status_unprocessable status_internal_error crashed no_reply : Reply

abbrev pub start : Goroutine → Admin → Admin
start job admin = record admin { goroutines = admin.goroutines ++ job ∷ [] }

-- The early returns leave the mutex locked. The body is the decoded list of names. In another state
-- the text of the refusal is written before its status, so that the client is told 200.
unfoldable pub handle_add_new_player : Option (List String) → Admin → Reply × Admin
handle_add_new_player body admin =
    if not (is_adding admin.state) then (status_ok, record admin { locked = true }) else elim body [
      | none ↦ (status_bad_request, record admin { locked = true })
      | some [] ↦ (crashed, record admin { locked = true })
      | some (joiner ∷ _) ↦
          if admin.table.is_shuffled
          then elim (lookup joiner admin.table.hand_of_player) [
            | none ↦ (status_unprocessable, start (sync_player_joined joiner) admin)
            | some _ ↦ (status_ok, start (sync_player_joined joiner) admin)
          ]
          else elim (add_player admin.table joiner) [
            | ok t ↦ (status_ok, start (sync_player_joined joiner) (record admin { table = t }))
            | err _ ↦ (status_unprocessable, record admin { locked = true })
            | panic ↦ (crashed, record admin { locked = true })
          ]
    ]

-- The acks are sent to the list, which takes them in turn.
abbrev pub post_ack : ExpectedAck → Admin → Admin
post_ack ack admin = record admin { acks_received = admin.acks_received ++ ack ∷ [] }

-- The bodies: who acks, and which player joined or which decision was synced.
unfoldable pub handle_ack_new_player_added : Option (String × String) → Admin → Reply × Admin
handle_ack_new_player_added none admin = (status_bad_request, admin)
handle_ack_new_player_added (some (acker, new_player)) admin =
    (status_ok, post_ack (ack_of (ack_id_connected_player acker new_player) acker) admin)

unfoldable pub handle_ack_player_decision_synced : Option (String × ℕ) → Admin → Reply × Admin
handle_ack_player_decision_synced none admin = (status_bad_request, admin)
handle_ack_player_decision_synced (some (acker, counter)) admin =
    (status_ok, post_ack (ack_of (ack_id_of_decision_sync_player acker counter) acker) admin)

abbrev with_shuffler : SetReadyMessage → Table → Table
with_shuffler message t = record t { shuffler_name = message.shuffler_name }

abbrev first_player : SetReadyMessage → Table → Table
first_player message t =
    if message.shuffler_is_first_player
    then record t { player_of_next_turn = t.shuffler_name }
    else t

-- Eight cards for each player, if the table was not loaded with its hands.
abbrev serve : Rand → List String → Table → Outcome TableError Table
serve r order t = if t.is_shuffled then ok t else shuffle_deck_and_distribute r order (pos 8) t

-- What a panic in the middle of the deal leaves of the table is not followed further.
abbrev make_ready : Rand → List String → SetReadyMessage → Admin → Reply × Admin
make_ready r order message admin = elim (serve r order (with_shuffler message admin.table)) [
  | ok t ↦ (
    status_ok,
    start send_served_cards
        (record admin { state = ready_to_serve_cards; table = first_player message t }),
  )
  | err _ ↦ (crashed, record admin { state = ready_to_serve_cards })
  | panic ↦ (crashed, record admin { state = ready_to_serve_cards })
]

-- Whether the address of the sender is resolved is the first argument.
unfoldable pub handle_set_ready :
    Bool → Rand → List String → Option SetReadyMessage → Admin → Reply × Admin
handle_set_ready resolved r order body admin =
    if not resolved
    then (status_internal_error, admin)
    else if not (is_adding admin.state)
    then (status_forbidden, admin)
    else if not (length admin.expected_acks_list.pending_acks == 0)
    then (status_see_other, admin)
    else elim body [
      | none ↦ (status_bad_request, admin)
      | some message ↦ make_ready r order message admin
    ]

-- The send of the ack has no buffer and the handler has the mutex: where the list of acks does not take
-- the ack, the handler never returns. Whether it is taken is the first argument. Neither the player nor
-- the counter of the request is compared with those that are waited for.
unfoldable pub handle_player_decisions_event :
    Bool → Option PlayerDecisionsRequest → Admin → Reply × Admin
handle_player_decisions_event taken body admin =
    if not (is_waiting admin.state) then (status_see_other, admin) else elim body [
      | none ↦ (status_bad_request, admin)
      | some event ↦ if not taken then (no_reply, record admin { locked = true }) else (
        status_ok,
        start (sync_player_decision event) (
            post_ack
              (ack_of
                (ack_id_waiting_for_player_decision event.deciding_player
                  event.decision_event_counter)
                event.deciding_player)
              admin),
      )
    ]
