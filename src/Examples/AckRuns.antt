-- ===== src/Examples/AckRuns.antt =====
-- The theorems on acks at concrete lists.
use uknow.Prelude.{◌≡◌, refl, String, [], ◌∷◌, none, some, inl}
use uknow.Admin.Acks.{
  ExpectedAck, PendingAck, ExpectedAcksList, new_expected_acks_state, add_pending, receive_ack,
  time_out, preempted, blocked, take_pending, delete_preemptive, take_waiting,
}
use uknow.Admin.Acks.Matching.{Disjoint, OneMore, Leaves, add_pending-balance, receive_ack-balance}
use uknow.Admin.Acks.Timing.{late_ack_blocks, early_ack_calls_nothing}

abbrev empty : ExpectedAcksList String
empty = new_expected_acks_state

abbrev synced : ExpectedAck
synced = record { ack_id = "ann_synced_0"; acker_player_name = "ann" }

none_pending : take_pending synced empty.pending_acks ≡ none
unfolding take_pending
none_pending = refl

none_kept : delete_preemptive synced empty.preemptive_acks ≡ none
unfolding delete_preemptive
none_kept = refl

none_waits : take_waiting empty.started empty.waiting ≡ none
unfolding take_waiting
none_waits = refl

add_pending-balance_example :
    OneMore synced empty (add_pending synced "acked" "late" empty)
    × Disjoint (add_pending synced "acked" "late" empty)
add_pending-balance_example = add_pending-balance synced "acked" "late" empty (λ x. inl refl)

receive_ack-balance_example :
    Leaves (receive_ack synced empty) (λ u. OneMore synced u empty × Disjoint u)
receive_ack-balance_example = receive_ack-balance synced empty (λ x. inl refl)

abbrev waiting_ack : PendingAck String
waiting_ack = record { expected = synced; goroutine = 0; on_ack = "acked"; on_timeout = "late" }

late_ack_blocks_example :
    (time_out 0 (add_pending synced "acked" "late" empty)
      ≡ some ("late", record empty { pending_acks = waiting_ack ∷ []; started = 1 }))
    × (receive_ack synced (record empty { pending_acks = waiting_ack ∷ []; started = 1 }) ≡ blocked)
late_ack_blocks_example =
    late_ack_blocks synced "acked" "late" empty none_pending none_kept none_waits

early_ack_calls_nothing_example :
    (u : ExpectedAcksList String) × (receive_ack synced empty ≡ preempted u)
    × ((add_pending synced "acked" "late" u).pending_acks ≡ [])
    × ((add_pending synced "acked" "late" u).waiting ≡ [])
    × ((add_pending synced "acked" "late" u).senders ≡ 1)
early_ack_calls_nothing_example = early_ack_calls_nothing synced "acked" "late" empty none_pending
