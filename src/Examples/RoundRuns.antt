-- ===== src/Examples/RoundRuns.antt =====
-- A round of a game of two players, in which "bob" draws a card.
use mathlib.Core.Path.{subst}
use uknow.Prelude.{
  ◌≡◌, ◌≢◌, refl, true, false, String, List, [], ◌∷◌, Option, none, some, arith, str_eq, eq_iff,
  if◌then◌else◌, lookup, lookup_or, insert,
}
use uknow.Deck.{top, must_pop}
use uknow.Table.Game.{run}
use uknow.Table.Eval.{pull_card}
use uknow.Table.Play.{need_more_user_decision_to_finish_turn}
use uknow.Table.Decide.{
  eval_player_decision, eval_player_decisions, eval_player_decisions_no_transfer_chan, eval_pull,
}
use uknow.Admin.Server.{
  Admin, PlayerDecisionsRequest, player_chosen_for_turn, handle_player_decisions_event,
}
use uknow.Admin.Dispatch.{dispatch_chosen, dispatch_decision}
use uknow.Client.{Client, status_ok, new_player_client, waiting_for_admin_to_choose_player}
use uknow.Client.Asking.{
  ask, ask_and_run_user_decisions, run_commands, eval_repl_command_on_table, decide,
}
use uknow.Client.Events.{on_chosen_player, on_player_decisions_sync}
use uknow.Client.Replay.Turns.{ChallengesPaid}
use uknow.Client.Copies.Rounds.{
  World, Plays, Round, Together, round, no_round, and_round, last_request, Rounds-Together,
}
use uknow.Examples.{insertion, place_all, place, three_players}
use uknow.Examples.ServerRuns.{server}
use uknow.Examples.ClientRuns.{client, or_bob, draws, pulls}
use uknow.Table.Local.{owned_by}

abbrev names : List String
names = "bob" ∷ "cyd" ∷ []

abbrev first_world : World
first_world = record {
  admin = server player_chosen_for_turn [] (owned_by "" three_players);
  client = λ name. client waiting_for_admin_to_choose_player name three_players;
}

abbrev request : PlayerDecisionsRequest
request = record { deciding_player = "bob"; decisions = pulls ∷ []; decision_event_counter = 4 }

abbrev or_admin : Option Admin → Admin
or_admin none = first_world.admin
or_admin (some admin) = admin

abbrev accepted : Admin
accepted =
    (handle_player_decisions_event true (some request) (dispatch_chosen true first_world.admin)).1

abbrev told : String → Client
told name = on_chosen_player "bob" 4 (first_world.client name)

abbrev next_client : String → Client
next_client name =
    if str_eq name "bob"
    then or_bob (ask_and_run_user_decisions insertion draws 4 status_ok (told name))
    else or_bob (on_player_decisions_sync insertion request (told name))

abbrev next_world : World
next_world = record {
  admin = or_admin (dispatch_decision insertion false request accepted);
  client = next_client;
}

bob_ends :
    ask_and_run_user_decisions insertion draws 4 status_ok (told "bob")
    ≡ some (next_world.client "bob")
unfolding on_chosen_player ask_and_run_user_decisions run_commands eval_repl_command_on_table decide
    run eval_player_decision eval_pull pull_card top must_pop insert lookup lookup_or place_all
    place need_more_user_decision_to_finish_turn new_player_client
bob_ends = refl

bob_posted : last_request (next_world.client "bob").posted ≡ some request
unfolding on_chosen_player ask_and_run_user_decisions run_commands eval_repl_command_on_table decide
    run eval_player_decision eval_pull pull_card top must_pop insert lookup lookup_or place_all
    place need_more_user_decision_to_finish_turn new_player_client
bob_posted = refl

server_ends : dispatch_decision insertion false request accepted ≡ some next_world.admin
unfolding handle_player_decisions_event dispatch_chosen dispatch_decision
    eval_player_decisions_no_transfer_chan eval_player_decisions run eval_player_decision eval_pull
    pull_card top must_pop insert lookup lookup_or place_all place
server_ends = refl

cyd_ends : on_player_decisions_sync insertion request (told "cyd") ≡ some (next_world.client "cyd")
unfolding on_chosen_player on_player_decisions_sync eval_player_decisions run eval_player_decision
    eval_pull pull_card top must_pop insert lookup lookup_or place_all place new_player_client
cyd_ends = refl

is_cyd : (name : String) → Plays names name → "bob" ≢ name → "cyd" ≡ name
is_cyd name p n = ground (arith, p, n, eq_iff name "bob", eq_iff name "cyd")

others_end :
    (other : String)
    → Plays names other
    → "bob" ≢ other
    → on_player_decisions_sync insertion request (told other) ≡ some (next_world.client other)
others_end other p n =
    subst
      (λ name.
        on_player_decisions_sync insertion request (told name) ≡ some (next_world.client name))
      (is_cyd other p n) cyd_ends

bob-Plays : Plays names "bob"
bob-Plays e = ground (arith, e, eq_iff "bob" "bob")

bob_paid : ChallengesPaid insertion draws (ask (told "bob"))
bob_paid = ((λ e. ground (arith, e)), tt)

one-Round : Round insertion names first_world next_world
one-Round =
    round "bob" 4 draws true false request bob-Plays refl bob_ends bob_paid bob_posted server_ends
      others_end

first_Together : Together names first_world
unfolding new_player_client
first_Together = record {
  table = three_players;
  server = refl;
  copies = λ name p. refl;
  waiting = λ name p. refl;
}

Rounds-Together_example : Together names next_world
Rounds-Together_example =
    Rounds-Together insertion names first_world next_world (and_round no_round one-Round)
      first_Together
