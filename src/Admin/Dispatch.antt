-- ===== src/Admin/Dispatch.antt =====
-- admin/admin.go: `dispatchEventWithSSE`, `runNewTurn` and the callbacks of the acks. Whether the
-- messages to the players can be written is an argument. `none` is the end of the process.
use uknow.Prelude.{
  ℕ, ◌+◌, ◌-◌, Bool, String, List, [], ◌∷◌, ◌++◌, Option, none, some, ok, err, panic, ◌==◌,
  if◌then◌else◌, str_eq, get_elem?, set, length,
}
use uknow.Deck.{Sorter}
use uknow.Table.{state_eq, have_winner as table_has_winner}
use uknow.Table.Decide.{eval_player_decisions_no_transfer_chan}
use uknow.Admin.Acks.{ExpectedAcksList, add_pending, receive_ack, acked, preempted, blocked}
use uknow.Admin.Server.{
  Admin, AckCallback, Goroutine, PlayerDecisionsRequest, ack_of, ack_id_connected_player,
  ack_id_of_decision_sync_player, ack_id_waiting_for_player_decision, log_ack, count_synced,
  is_done_syncing, start, sync_player_joined, send_served_cards, send_chosen_player, run_new_turn,
  sync_player_decision, run_callback, waiting_for_player_decision, syncing_player_decision,
  done_syncing_player_decision, player_chosen_for_turn, have_winner,
}

-- A pending ack whose callbacks only log.
abbrev pub expect : String → String → ExpectedAcksList AckCallback → ExpectedAcksList AckCallback
expect id player acks = add_pending (ack_of id player) log_ack log_ack acks

-- The loop over the writers when a player joined.
unfoldable pub expect_joined :
    String → List String → ExpectedAcksList AckCallback → ExpectedAcksList AckCallback
expect_joined joiner [] acks = acks
expect_joined joiner (name ∷ names) acks =
    if str_eq name joiner
    then expect_joined joiner names acks
    else expect_joined joiner names (
        expect (ack_id_connected_player name joiner) name
          (expect (ack_id_connected_player joiner name) joiner acks))

-- The writer of the player is set.
abbrev pub add_writer : String → List String → List String
add_writer joiner [] = joiner ∷ []
add_writer joiner (name ∷ names) =
    if str_eq name joiner then name ∷ names else name ∷ add_writer joiner names

unfoldable pub dispatch_joined : String → Admin → Admin
dispatch_joined joiner admin = record admin {
  sse_writer_for_player = add_writer joiner admin.sse_writer_for_player;
  expected_acks_list =
      expect_joined joiner (add_writer joiner admin.sse_writer_for_player) admin.expected_acks_list;
}

-- The loop over the writers when a decision was evaluated: each other player acks it.
unfoldable pub expect_synced :
    PlayerDecisionsRequest
    → ℕ
    → List String
    → ExpectedAcksList AckCallback
    → ExpectedAcksList AckCallback
expect_synced request sync [] acks = acks
expect_synced request sync (name ∷ names) acks =
    if str_eq name request.deciding_player
    then expect_synced request sync names acks
    else expect_synced request sync names (
        add_pending
          (ack_of (ack_id_of_decision_sync_player name request.decision_event_counter) name)
          (count_synced sync) log_ack acks)

abbrev wait_for_synced : PlayerDecisionsRequest → Admin → Admin
wait_for_synced request admin = record admin {
  remaining = admin.remaining ++ (length admin.sse_writer_for_player - 1) ∷ [];
  expected_acks_list =
      expect_synced request (length admin.remaining) admin.sse_writer_for_player
        admin.expected_acks_list;
}

-- An error leaves the table as the evaluation left it.
unfoldable pub dispatch_decision : Sorter → Bool → PlayerDecisionsRequest → Admin → Option Admin
dispatch_decision s sent request admin =
    let (r, t) =
      eval_player_decisions_no_transfer_chan s request.deciding_player request.decisions
        admin.table in
    let evaluated = record admin { table = t; state = syncing_player_decision } in
    elim r [
      | ok _ ↦ some (if sent then wait_for_synced request evaluated else evaluated)
      | err _ ↦ some (record admin { table = t })
      | panic ↦ none
    ]

unfoldable pub dispatch_chosen : Bool → Admin → Admin
dispatch_chosen sent admin =
    if sent
    then record admin {
      state = waiting_for_player_decision;
      expected_acks_list =
          expect
            (ack_id_waiting_for_player_decision admin.table.player_of_next_turn
              admin.decision_events_completed)
            admin.table.player_of_next_turn admin.expected_acks_list;
    }
    else admin

-- The argument is the setting that a new turn is signalled at the prompt.
unfoldable pub new_turn : Bool → Admin → Option Admin
new_turn via_prompt admin =
    if via_prompt
    then some admin
    else if state_eq admin.table.table_state table_has_winner
    then some (record admin { state = have_winner })
    else if is_done_syncing admin.state
    then some (start send_chosen_player (record admin { state = player_chosen_for_turn }))
    else none

-- The last ack of a sync ends it.
unfoldable pub count_ack : ℕ → ℕ → Admin → Admin
count_ack sync left admin =
    if left == 1
    then start run_new_turn (record admin {
      remaining = set admin.remaining sync 0;
      state = done_syncing_player_decision;
      decision_events_completed = admin.decision_events_completed + 1;
    })
    else record admin { remaining = set admin.remaining sync (left - 1) }

unfoldable pub call_back : AckCallback → Admin → Admin
call_back log_ack admin = admin
call_back (count_synced sync) admin = elim (get_elem? admin.remaining sync) [
  | none ↦ admin
  | some left ↦ count_ack sync left admin
]

-- What the goroutine does, once it was taken from the list.
unfoldable pub run_job : Sorter → Bool → Bool → Goroutine → Admin → Option Admin
run_job s sent via_prompt (sync_player_joined joiner) admin = some (dispatch_joined joiner admin)
run_job s sent via_prompt send_served_cards admin = some (start send_chosen_player admin)
run_job s sent via_prompt send_chosen_player admin = some (dispatch_chosen sent admin)
run_job s sent via_prompt run_new_turn admin = new_turn via_prompt admin
run_job s sent via_prompt (sync_player_decision request) admin =
    dispatch_decision s sent request admin
run_job s sent via_prompt (run_callback callback) admin = some (call_back callback admin)

-- A round of the list of acks, for the next ack that was sent to it. It has no result if it blocks.
unfoldable pub take_ack : Admin → Option Admin
take_ack admin = elim admin.acks_received [
  | [] ↦ none
  | ack ∷ acks ↦ elim (receive_ack ack admin.expected_acks_list) [
    | acked callback es ↦ some (
        start (run_callback callback)
          (record admin { acks_received = acks; expected_acks_list = es }))
    | preempted es ↦ some (record admin { acks_received = acks; expected_acks_list = es })
    | blocked ↦ none
  ]
]
