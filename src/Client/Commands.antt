-- ===== src/Client/Commands.antt =====
-- player_client.go: the commands that are no decisions, and how the client joins the server. The
-- texts that commands print are left out.
use uknow.Prelude.{
  Bool, false, not, String, List, [], Option, none, some, Outcome, ok, err, panic, if◌then◌else◌,
}
use uknow.Prelude.Int.{ℤ, pos}
use uknow.Address.{HostPortProtocol, resolve_tcp_address}
use uknow.Repl.{ReplCommand, ReplCommandKind, ExtraData, address, cmd_connect, cmd_declare_ready}
use uknow.Deck.{Sorter}
use uknow.Client.Events.{ServerEvent, sse_controller, note_each_player}
use uknow.Client.Asking.{ask_and_run_user_decisions}
use uknow.Client.{
  ClientJob, ask_and_run_decisions, other_status, Client, AddNewPlayersMessage, Response,
  add_new_player, in_client_state, post, post_to, go_run, is_waiting_to_connect, connect,
  note_players, post_set_ready, post_player, waiting_for_admin_to_serve_cards, no_response,
  status_ok, status_see_other,
}

-- What `net.ResolveTCPAddr` answers; its errors are only printed.
abbrev pub Resolver : Type 0
Resolver = String → Outcome (Unit {0}) (String × ℤ)

abbrev no_host : HostPortProtocol
no_host = record { ip = ""; port = pos 0; protocol = "" }

-- An address that does not resolve is printed, and its zero value is used.
abbrev admin_address : Resolver → ExtraData → Client → HostPortProtocol
admin_address resolve (address text) c = elim (resolve_tcp_address resolve text) [
  | ok addr ↦ addr
  | err _ ↦ no_host
  | panic ↦ no_host
]
admin_address resolve _ c = c.admin_addr

abbrev join_message : Client → AddNewPlayersMessage
join_message c =
    add_new_player (record { player_names = []; client_listen_addrs = [] })
      c.table.local_player_name (record { ip = c.advertise_ip; port = pos 0; protocol = "http" })

-- A round of the loop of `RunGeneralCommandHandler`.
abbrev handle_kind : Resolver → ReplCommand → ReplCommandKind → Client → Client
handle_kind resolve command cmd_connect c =
    if not (is_waiting_to_connect c.client_state)
    then c
    else go_run (connect (join_message c) (admin_address resolve command.extra_data c)) c
handle_kind resolve command cmd_declare_ready c =
    post
      (post_set_ready
        (record { shuffler_name = c.table.local_player_name; shuffler_is_first_player = false }))
      c
handle_kind resolve command _ c = c

unfoldable pub handle_general_command : Resolver → ReplCommand → Client → Client
handle_general_command resolve command c = handle_kind resolve command command.kind c

-- `connectToAdmin`, which nothing calls any more: the names in the answer, if it can be read. `none`
-- is the end of the process.
unfoldable pub connect_to_admin :
    AddNewPlayersMessage
    → HostPortProtocol
    → Response
    → Option (List String)
    → Client
    → Option Client
connect_to_admin message addr no_response body c = some (post_to addr (post_player message) c)
connect_to_admin message addr status_see_other body c = some (post_to addr (post_player message) c)
connect_to_admin message addr status_ok none c = none
connect_to_admin message addr status_ok (some names) c = some (
    go_run (note_players names) (
      in_client_state waiting_for_admin_to_serve_cards
        (record (post_to addr (post_player message) c) { admin_addr = addr })))
connect_to_admin message addr _ body c = none

-- `connectToAdminAndStartSSEController`, with the lines of the stream.
unfoldable pub connect_to_admin_and_start_sse :
    Sorter
    → AddNewPlayersMessage
    → HostPortProtocol
    → Response
    → Option (List String)
    → List (Option ServerEvent × Bool)
    → Client
    → Option Client
connect_to_admin_and_start_sse s message addr resp first lines c = elim resp [
  | no_response ↦ some (post_to addr (post_player message) c)
  | status_ok ↦ sse_controller s first lines (post_to addr (post_player message) c)
  | status_see_other ↦ some (post_to addr (post_player message) c)
  | other_status ↦ some (post_to addr (post_player message) c)
]

-- A goroutine, once it was taken from the list. What it meets is given by the other arguments.
unfoldable pub run_client_job :
    Sorter
    → List ReplCommand
    → Response
    → Option (List String)
    → List (Option ServerEvent × Bool)
    → ClientJob
    → Client
    → Option Client
run_client_job s commands resp first lines (ask_and_run_decisions counter) c =
    ask_and_run_user_decisions s commands counter resp c
run_client_job s commands resp first lines (connect message addr) c =
    connect_to_admin_and_start_sse s message addr resp first lines c
run_client_job s commands resp first lines (note_players names) c = some (note_each_player names c)
