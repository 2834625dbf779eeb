-- ===== src/Admin/Prompt.antt =====
-- admin/admin.go: how the server starts, restarts and reads its prompt, and whom it writes to. Whether
-- a message can be written is said for each player; the loaded description of a table is an argument.
pub mod Restarted
use uknow.Prelude.{
  ℕ, Bool, true, false, not, ◌||◌, String, List, [], ◌∷◌, Option, none, some, Outcome, ok, err,
  panic, ◌==◌, if◌then◌else◌, str_eq, length, join,
}
use uknow.Deck.{Sorter}
use uknow.Table.{Table, new_admin_table}
use uknow.HandReader.{JsonMap, ReadError}
use uknow.HandReader.Making.{Counts}
use uknow.HandReader.Loading.{load_config}
use uknow.Admin.Acks.{ExpectedAcksList, PendingAck, new_expected_acks_state}
use uknow.Admin.Server.{
  Admin, AdminState, adding_players, ready_to_serve_cards, cards_served, player_chosen_for_turn,
  waiting_for_player_decision, waiting_for_challenge_player_decision, syncing_player_decision,
  done_syncing_player_decision, have_winner,
}

-- An error of the description ends the process.
unfoldable pub create_starting_table :
    Sorter → (Counts → Counts) → Option JsonMap → Outcome ReadError Table
unfolding new_admin_table
create_starting_table s arrange none = ok (new_admin_table s)
create_starting_table s arrange (some config) =
    elim (load_config arrange config (new_admin_table s)) [
      | ok t ↦ ok t
      | err _ ↦ panic
      | panic ↦ panic
    ]

unfoldable pub new_admin : Table → Admin
new_admin t = record {
  table = t;
  state = adding_players;
  locked = false;
  sse_writer_for_player = [];
  expected_acks_list = new_expected_acks_state;
  acks_received = [];
  decision_events_completed = 0;
  remaining = [];
  goroutines = [];
}

-- The writers and the counter of decisions stay. The acks that were sent to the old list are not sent
-- to the new one.
unfoldable pub restart : Table → Admin → Admin
restart t admin = record admin {
  table = t;
  state = adding_players;
  expected_acks_list = new_expected_acks_state;
  acks_received = [];
}

-- The players that are written to, in the order of the map, and whether all could be. The first
-- failure ends the loop.
unfoldable pub send_message_to_all : String → List (String × Bool) → List String × Bool
send_message_to_all exclude_player [] = ([], true)
send_message_to_all exclude_player ((name, writes) ∷ writers) =
    let (names, all) = send_message_to_all exclude_player writers in
    if str_eq name exclude_player
    then (names, all)
    else if writes
    then (name ∷ names, all)
    else ([], false)

-- An unknown player is an error.
unfoldable pub send_message_to_single : String → List (String × Bool) → Bool
send_message_to_single player_name [] = false
send_message_to_single player_name ((name, writes) ∷ writers) =
    if str_eq name player_name then writes else send_message_to_single player_name writers

abbrev state_text : Table → AdminState → String
state_text t adding_players = "[adding_players]> "
state_text t ready_to_serve_cards = "[ready_to_serve_cards]> "
state_text t cards_served = "[cards_served]> "
state_text t player_chosen_for_turn =
    join ("[player_chosen_for_turn:" ∷ t.player_of_next_turn ∷ "]> " ∷ [])
state_text t waiting_for_player_decision =
    join ("[waiting_for_player_decision:" ∷ t.player_of_next_turn ∷ "]> " ∷ [])
state_text t waiting_for_challenge_player_decision =
    join ("[waiting_for_challenge_decision:" ∷ t.player_of_next_turn ∷ "]> " ∷ [])
state_text t syncing_player_decision =
    join ("[syncing_player_decision:" ∷ t.player_of_next_turn ∷ "]> " ∷ [])
state_text t done_syncing_player_decision = join (
    "[done_syncing_player_decision:(decider:" ∷ t.player_of_last_turn ∷ ", next:"
    ∷ t.player_of_next_turn ∷ ")]> " ∷ [])
state_text t have_winner = join ("[have_winner:" ∷ t.winner_player_name ∷ "]> " ∷ [])

-- What `updatePromptWithStateInfo` sets.
unfoldable pub prompt_with_state_info : Admin → String
prompt_with_state_info admin = state_text admin.table admin.state

abbrev ids_of {ℓ} : {A : Type ℓ} → (A → String) → List A → String
ids_of id [] = ""
ids_of id (ack ∷ acks) = join (id ack ∷ "\n" ∷ ids_of id acks ∷ [])

unfoldable pub ack_ids : {A : Type 0} → ExpectedAcksList A → String
ack_ids es = ids_of (λ (p : PendingAck _). p.expected.ack_id) es.pending_acks

-- What a line at the prompt does. A call that needs the mutex waits while it is locked; a mutex that
-- is unlocked twice ends the process.
pub data LineResult : Type 0 where
  quits waits crashes : LineResult
  goes_on : Admin → LineResult

abbrev with_lock : Admin → LineResult → LineResult
with_lock admin r = if admin.locked then waits else r

-- `setReady`: with a pending ack it unlocks the list twice, and without one it does nothing.
unfoldable pub set_ready : Admin → LineResult
set_ready admin =
    with_lock admin
      (if length admin.expected_acks_list.pending_acks == 0 then goes_on admin else crashes)

-- A round of `RunREPL`. `starting` is what `createStartingTable` makes.
unfoldable pub handle_line : Outcome ReadError Table → String → Admin → LineResult
unfolding set_ready restart
handle_line starting line admin =
    if str_eq line "q" || str_eq line "quit"
    then quits
    else if str_eq line "restart" || str_eq line "re"
    then with_lock admin
        (elim starting [ ok t ↦ goes_on (restart t admin) | err _ ↦ crashes | panic ↦ crashes ])
    else if str_eq line "state" || str_eq line "table_summary"
    then with_lock admin (goes_on admin)
    else if str_eq line "set_ready" || str_eq line "sr"
    then set_ready admin
    else goes_on admin
