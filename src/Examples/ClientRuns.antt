-- ===== src/Examples/ClientRuns.antt =====
-- The theorems on the client at concrete tables and commands.
use uknow.Prelude.{
  ◌≤◌, length, ◌≡◌, ◌≢◌, refl, true, String, List, [], ◌∷◌, ◌++◌, Option, none, some, err, arith,
  eq_iff, lookup, lookup_or, insert,
}
use uknow.Prelude.Int.{pos}
use uknow.Card.{card}
use uknow.Deck.{top, must_pop}
use uknow.Address.{HostPortProtocol}
use uknow.Table.{
  create_new_table, Table, PlayerDecision, pull_from_deck, eval_decision, err_already_drew_card,
}
use uknow.Table.Game.{run}
use uknow.Table.Eval.{pull_card}
use uknow.Table.Play.{need_more_user_decision_to_finish_turn}
use uknow.Table.Decide.{eval_player_decision, eval_player_decisions, eval_pull}
use uknow.Table.Local.{owned_by}
use uknow.Table.Local.Decisions.{eval_player_decisions-owned_by}
use uknow.Table.Failures.Decisions.{is_about_challenge, eval_player_decision-undone}
use uknow.Repl.{ReplCommand, new_repl_command, cmd_draw_card}
use uknow.Admin.Server.{Admin, player_chosen_for_turn}
use uknow.Client.{
  Client, PlayerClientState, new_player_client, in_client_state, status_ok, ask_and_run_decisions,
  waiting_for_admin_to_serve_cards, waiting_for_admin_to_choose_player, waiting_for_decision_sync,
}
use uknow.Client.Asking.{
  ask, ask_and_run_user_decisions, run_commands, eval_repl_command_on_table, decide,
}
use uknow.Client.Events.{
  on_served_cards, on_chosen_player, handle_chosen_player_event, reply_bad_request,
}
use uknow.Client.Replay.Turns.{ChallengesPaid}
use uknow.Client.Copies.{Shared, turn-Shared}
use uknow.Client.Chosen.{chosen_twice_asks_twice, on_served_cards-owned_by}
use uknow.Examples.{insertion, place_all, place, three_players, drawn_table, game_of}
use uknow.Examples.ServerRuns.{server}

abbrev admin_host : HostPortProtocol
admin_host = record { ip = "10.0.0.1"; port = pos 5000; protocol = "http" }

abbrev pub client : PlayerClientState → String → Table → Client
client state name t =
    in_client_state state (new_player_client (owned_by name t) admin_host "10.0.0.2")

-- "bob" draws a card.
abbrev pub bob : Client
bob = client waiting_for_admin_to_choose_player "bob" three_players

abbrev pub draws : List ReplCommand
draws = new_repl_command cmd_draw_card "bob" ∷ []

abbrev pub pulls : PlayerDecision
pulls = record { kind = pull_from_deck; result_card = card 2 2; wild_card_chosen_color = 0 }

abbrev pub or_bob : Option Client → Client
or_bob none = bob
or_bob (some c) = c

abbrev after_turn : Client
after_turn = or_bob (ask_and_run_user_decisions insertion draws 4 status_ok bob)

paid : ChallengesPaid insertion draws (ask bob)
paid = ((λ e. ground (arith, e)), tt)

turn_ends : ask_and_run_user_decisions insertion draws 4 status_ok bob ≡ some after_turn
unfolding ask_and_run_user_decisions run_commands eval_repl_command_on_table decide run
    eval_player_decision eval_pull pull_card top must_pop insert lookup lookup_or place_all place
    need_more_user_decision_to_finish_turn new_player_client
turn_ends = refl

abbrev admin : Admin
admin = server player_chosen_for_turn [] (owned_by "" three_players)

abbrev cyd : Client
cyd = client waiting_for_decision_sync "cyd" three_players

server_copy : admin.table ≡ owned_by "" bob.table
unfolding new_player_client
server_copy = refl

cyd_copy : cyd.table ≡ owned_by cyd.table.local_player_name bob.table
unfolding new_player_client
cyd_copy = refl

apart : bob.table.local_player_name ≢ cyd.table.local_player_name
unfolding new_player_client
apart e = ground (arith, eq_iff "bob" "cyd", e)

cyd_waits : cyd.client_state ≡ waiting_for_decision_sync
cyd_waits = refl

turn-Shared_example : Shared insertion bob after_turn admin cyd
turn-Shared_example =
    turn-Shared insertion draws 4 status_ok bob after_turn admin cyd turn_ends paid server_copy
      cyd_copy apart cyd_waits

eval_player_decisions-owned_by_example :
    let g = game_of three_players in
    let h = game_of (owned_by "bob" three_players) in
    ((eval_player_decisions insertion "bob" (pulls ∷ []) h).0
      ≡ (eval_player_decisions insertion "bob" (pulls ∷ []) g).0)
    × ((eval_player_decisions insertion "bob" (pulls ∷ []) h).1.table
        ≡ owned_by "bob" (eval_player_decisions insertion "bob" (pulls ∷ []) g).1.table)
eval_player_decisions-owned_by_example =
    eval_player_decisions-owned_by insertion "bob" (pulls ∷ []) (game_of three_players)
      (game_of (owned_by "bob" three_players)) refl

-- The second draw of a turn.
drew_already :
    (eval_player_decision insertion "bob" pulls (game_of drawn_table)).0
    ≡ err (eval_decision pulls err_already_drew_card)
unfolding run eval_player_decision eval_pull
drew_already = refl

no_challenge : is_about_challenge pulls.kind ≡ true → 4 ≤ length drawn_table.draw_deck
no_challenge e = ground (arith, e)

eval_player_decision-undone_example :
    (eval_player_decision insertion "bob" pulls (game_of drawn_table)).1.table ≡ drawn_table
eval_player_decision-undone_example =
    eval_player_decision-undone insertion "bob" pulls (game_of drawn_table)
      (eval_decision pulls err_already_drew_card) no_challenge drew_already

-- "bob" is told that "cyd" is to play.
abbrev told : Client
told = on_chosen_player "cyd" 4 bob

bob_waits : bob.client_state ≡ waiting_for_admin_to_choose_player
bob_waits = refl

bob_is_bob : bob.table.local_player_name ≡ "bob"
unfolding new_player_client
bob_is_bob = refl

chosen_twice_asks_twice_example :
    let handled = handle_chosen_player_event (some ("bob", 4)) bob in
    ((on_chosen_player "bob" 5 (on_chosen_player "bob" 4 bob)).jobs
      ≡ bob.jobs ++ ask_and_run_decisions 4 ∷ ask_and_run_decisions 5 ∷ [])
    × (handled.1.jobs ≡ bob.jobs ++ ask_and_run_decisions 4 ∷ [])
    × (handle_chosen_player_event (some ("bob", 5)) handled.1 ≡ (reply_bad_request, handled.1))
chosen_twice_asks_twice_example = chosen_twice_asks_twice "bob" 4 5 bob bob_waits bob_is_bob

abbrev new_bob : Client
new_bob = client waiting_for_admin_to_serve_cards "bob" (create_new_table insertion)

new_bob_waits : new_bob.client_state ≡ waiting_for_admin_to_serve_cards
new_bob_waits = refl

abbrev served : Table
served = record three_players { required_number_before_wild4 = 0 }

same_turns : new_bob.table.turns_completed ≡ served.turns_completed
unfolding new_player_client create_new_table
same_turns = refl

same_state : new_bob.table.table_state ≡ served.table_state
unfolding new_player_client create_new_table
same_state = refl

same_number : new_bob.table.required_number_before_wild4 ≡ served.required_number_before_wild4
unfolding new_player_client create_new_table
same_number = refl

same_winner : new_bob.table.winner_player_name ≡ served.winner_player_name
unfolding new_player_client create_new_table
same_winner = refl

on_served_cards-owned_by_example :
    ((on_served_cards true served new_bob).table ≡ owned_by new_bob.table.local_player_name served)
    × ((on_served_cards true served new_bob).client_state ≡ waiting_for_admin_to_choose_player)
on_served_cards-owned_by_example =
    on_served_cards-owned_by true served new_bob new_bob_waits same_turns same_state same_number
      same_winner
