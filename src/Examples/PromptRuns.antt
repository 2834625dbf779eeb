-- ===== src/Examples/PromptRuns.antt =====
-- The theorem on a restart, with the writers of three players.
use uknow.Prelude.{true, ◌≡◌, ◌≢◌, [], ◌∷◌, some, arith, length, count, eq_iff}
use uknow.Admin.Server.{
  Admin, SetReadyMessage, handle_set_ready, status_see_other, waiting_for_player_decision,
}
use uknow.Admin.Dispatch.{dispatch_joined}
use uknow.Admin.Prompt.{restart}
use uknow.Admin.Prompt.Restarted.{is_other, acks_for, restart_waits_for_absent}
use uknow.Examples.{three_players}
use uknow.Examples.DealRuns.{last_of, two_players}
use uknow.Examples.ServerRuns.{server}

abbrev playing : Admin
playing = server waiting_for_player_decision [] three_players

abbrev ready : SetReadyMessage
ready = record { shuffler_name = "ann"; shuffler_is_first_player = true }

others_left : count (is_other "ann") playing.sse_writer_for_player ≢ 0
others_left e = ground (arith, e, eq_iff "bob" "ann", eq_iff "cyd" "ann")

restart_waits_for_absent_example :
    let a = dispatch_joined "ann" (restart two_players playing) in
    (length a.expected_acks_list.pending_acks ≡ acks_for "ann" playing.sse_writer_for_player)
    × (handle_set_ready true last_of ("ann" ∷ []) (some ready) a ≡ (status_see_other, a))
restart_waits_for_absent_example =
    restart_waits_for_absent last_of ("ann" ∷ []) (some ready) "ann" two_players playing others_left
