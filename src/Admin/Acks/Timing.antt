-- ===== src/Admin/Acks/Timing.antt =====
-- An ack in time, an ack too late, and an ack that comes first.
use uknow.Prelude.{
  ◌+◌, ◌≡◌, ap, ◌∙◌, inl, inr, true, List, [], ◌∷◌, ◌++◌, none, some, arith, count-append,
}
use uknow.Admin.Acks.{
  ExpectedAck, PendingAck, ExpectedAcksList, equal, delete_preemptive, make_pending, add_pending,
  take_pending, take_waiting, acked, preempted, blocked, receive_ack, time_out,
}
use uknow.Admin.Acks.Matching.{
  equal_refl, is_ack, delete_preemptive-count, kept, receive-kept, receive-blocked, receive-acked,
}

module _ {A : Type 0} where
  module _ (ack : ExpectedAck) (f g : A) (es : ExpectedAcksList A)
      (not_pending : take_pending ack es.pending_acks ≡ none)
      (not_kept : delete_preemptive ack es.preemptive_acks ≡ none)
      (fresh : take_waiting es.started es.waiting ≡ none) where
    abbrev added : ExpectedAcksList A
    added = record es {
      pending_acks = es.pending_acks ++ make_pending ack f g es ∷ [];
      waiting = make_pending ack f g es ∷ es.waiting;
      started = es.started + 1;
    }

    add-added : add_pending ack f g es ≡ added
    unfolding add_pending
    add-added = ground (arith, not_kept)

    take_pending-last :
        (ps : List (PendingAck A)) (p : PendingAck A)
        → equal p.expected ack ≡ true
        → take_pending ack ps ≡ none
        → take_pending ack (ps ++ p ∷ []) ≡ some (p, ps)
    unfolding take_pending
    take_pending-last [] p t e = ground (arith, t)
    take_pending-last (q ∷ ps) p t e = ground (arith, t, e, take_pending-last ps p t)

    takes_added :
        take_pending ack added.pending_acks ≡ some (make_pending ack f g es, es.pending_acks)
    takes_added =
        take_pending-last es.pending_acks (make_pending ack f g es) (equal_refl ack) not_pending

    waits_added : take_waiting es.started added.waiting ≡ some (make_pending ack f g es, es.waiting)
    unfolding take_waiting
    waits_added = ground arith

    -- An ack that comes while it is waited for calls its callback, and the list is as before.
    pub receive_in_time :
        receive_ack ack (add_pending ack f g es) ≡ acked f (record es { started = es.started + 1 })
    receive_in_time =
        ap (receive_ack ack) add-added
        ∙ receive-acked ack added (make_pending ack f g es) (make_pending ack f g es)
            es.pending_acks es.waiting takes_added waits_added

    abbrev timed_out : ExpectedAcksList A
    timed_out = record added { waiting = es.waiting }

    -- An ack that comes after its timer ran out blocks the list for ever: the timer calls its callback
    -- but leaves the pending ack, and nobody reads the channel on which the round then sends.
    pub late_ack_blocks :
        (time_out es.started (add_pending ack f g es) ≡ some (g, timed_out))
        × (receive_ack ack timed_out ≡ blocked)
    unfolding time_out
    late_ack_blocks = (
      ground (arith, add-added, waits_added),
      receive-blocked ack timed_out (make_pending ack f g es) es.pending_acks takes_added fresh,
    )

  -- If the ack comes first, and none that is equal is pending, adding what waits for it calls no callback,
  -- now or later: the pending acks and the goroutines that wait for one are as before, and one more
  -- goroutine is left that sends on a channel nobody reads.
  pub early_ack_calls_nothing :
      (ack : ExpectedAck) (f g : A) (es : ExpectedAcksList A)
      → take_pending ack es.pending_acks ≡ none
      → (u : ExpectedAcksList A) × (receive_ack ack es ≡ preempted u)
        × ((add_pending ack f g u).pending_acks ≡ es.pending_acks)
        × ((add_pending ack f g u).waiting ≡ es.waiting)
        × ((add_pending ack f g u).senders ≡ es.senders + 1)
  unfolding add_pending
  early_ack_calls_nothing ack f g es e =
      elim (delete_preemptive-count ack (kept ack es).preemptive_acks) [
        | inl (n, z) ↦ absurd (
            ground
              (arith, z, count-append (is_ack ack) es.preemptive_acks (ack ∷ []), equal_refl ack))
        | inr (rest, n, c) ↦ (
          kept ack es,
          receive-kept ack es e,
          ground (arith, n),
          ground (arith, n),
          ground (arith, n),
        )
      ]
