-- ===== src/Examples/ServerRuns.antt =====
-- The theorems on the server at concrete states.
use uknow.Prelude.{◌≡◌, ◌≢◌, refl, true, false, List, [], ◌∷◌, some, count, str_eq}
use uknow.Table.{Table}
use uknow.Admin.Acks.{new_expected_acks_state}
use uknow.Admin.Server.{
  Admin, AdminState, Goroutine, handle_add_new_player, status_unprocessable, adding_players,
  player_chosen_for_turn, send_chosen_player,
}
use uknow.Admin.Dispatch.{dispatch_chosen, run_job}
use uknow.Admin.Steps.{Step, Moves, runs, first, Step-Moves}
use uknow.Admin.Names.{Step-names}
use uknow.Admin.Requests.{Halted, stop, second_join_halts}
use uknow.Examples.{insertion, three_players}

abbrev pub server : AdminState → List Goroutine → Table → Admin
server state goroutines table = record {
  table = table;
  state = state;
  locked = false;
  sse_writer_for_player = "ann" ∷ "bob" ∷ "cyd" ∷ [];
  expected_acks_list = new_expected_acks_state;
  acks_received = [];
  decision_events_completed = 0;
  remaining = [];
  goroutines = goroutines;
}

abbrev chosen : Admin
chosen = server player_chosen_for_turn (send_chosen_player ∷ []) three_players

abbrev told : Admin
told = dispatch_chosen true (server player_chosen_for_turn [] three_players)

tells :
    run_job insertion true false send_chosen_player (server player_chosen_for_turn [] three_players)
    ≡ some told
unfolding run_job
tells = refl

tell : Step insertion chosen told
tell = runs true false send_chosen_player [] refl first tells

Step-Moves_example : Moves three_players player_chosen_for_turn told.state
Step-Moves_example = Step-Moves insertion chosen told tell

Step-names_example : told.table.player_names ≡ "ann" ∷ "bob" ∷ "cyd" ∷ []
Step-names_example = Step-names insertion chosen told tell refl

-- "bob" joins twice.
abbrev joining : Admin
joining = server adding_players [] (record three_players { is_shuffled = false })

bob-sits : count (str_eq "bob") joining.table.player_names ≢ 0
bob-sits e = cc

second_join_halts_example :
    ((handle_add_new_player (some ("bob" ∷ [])) joining).0 ≡ status_unprocessable)
    × Halted joining (handle_add_new_player (some ("bob" ∷ [])) joining).1
second_join_halts_example =
    second_join_halts insertion joining (handle_add_new_player (some ("bob" ∷ [])) joining).1 "bob"
      [] refl refl bob-sits stop
