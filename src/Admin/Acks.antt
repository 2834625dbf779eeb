-- ===== src/Admin/Acks.antt =====
-- admin/expected_acks.go: the acks that the server waits for. A call holds the mutex of the list from
-- its start to its end, so the calls come one after the other.
pub mod Matching
pub mod Timing
use uknow.Prelude.{
  ℕ, zero, suc, ◌+◌, Bool, true, false, ◌&&◌, String, List, [], ◌∷◌, ◌++◌, Option, none, some,
  str_eq, ◌==◌, if◌then◌else◌,
}

pub record ExpectedAck : Type 0 where
  pub ack_id : String
  pub acker_player_name : String

abbrev pub equal : ExpectedAck → ExpectedAck → Bool
equal a b = str_eq a.ack_id b.ack_id && str_eq a.acker_player_name b.acker_player_name

-- A pending ack with the number of its goroutine, and what the callbacks do.
pub record PendingAck (A : Type 0) : Type 0 where
  pub expected : ExpectedAck
  pub goroutine : ℕ
  pub on_ack : A
  pub on_timeout : A

-- The list, the goroutines that wait for an ack or the timer, and how many goroutines are to send on a
-- channel that nobody reads.
pub record ExpectedAcksList (A : Type 0) : Type 0 where
  pub pending_acks : List (PendingAck A)
  pub preemptive_acks : List ExpectedAck
  pub waiting : List (PendingAck A)
  pub started : ℕ
  pub senders : ℕ

abbrev pub new_expected_acks_state : {A : Type 0} → ExpectedAcksList A
new_expected_acks_state = record {
  pending_acks = [];
  preemptive_acks = [];
  waiting = [];
  started = 0;
  senders = 0;
}

-- The first preemptive ack that is equal, deleted.
unfoldable pub delete_preemptive : ExpectedAck → List ExpectedAck → Option (List ExpectedAck)
delete_preemptive ack [] = none
delete_preemptive ack (a ∷ acks) =
    if equal a ack
    then some acks
    else elim (delete_preemptive ack acks) [ none ↦ none | some rest ↦ some (a ∷ rest) ]

-- How a round of `waitForAcks` ends: a callback is called, the ack is kept for later, or the send on
-- the channel of a goroutine that is gone blocks for ever, with the mutex locked.
pub data Received (B : Type 0) : Type 0 where
  acked : B → ExpectedAcksList B → Received B
  preempted : ExpectedAcksList B → Received B
  blocked : Received B

module _ {A : Type 0} where
  abbrev pub make_pending : ExpectedAck → A → A → ExpectedAcksList A → PendingAck A
  make_pending ack on_ack on_timeout es = record {
    expected = ack;
    goroutine = es.started;
    on_ack = on_ack;
    on_timeout = on_timeout;
  }

  -- With a preemptive ack, the goroutine that is started sends on the new channel, and none is started
  -- that reads it or that calls a callback.
  unfoldable pub add_pending : ExpectedAck → A → A → ExpectedAcksList A → ExpectedAcksList A
  add_pending ack on_ack on_timeout es = elim (delete_preemptive ack es.preemptive_acks) [
    | some rest ↦ record es { preemptive_acks = rest; senders = es.senders + 1 }
    | none ↦ record es {
      pending_acks = es.pending_acks ++ make_pending ack on_ack on_timeout es ∷ [];
      waiting = make_pending ack on_ack on_timeout es ∷ es.waiting;
      started = es.started + 1;
    }
  ]

  -- The first pending ack that is equal, and the others.
  unfoldable pub take_pending :
      ExpectedAck → List (PendingAck A) → Option (PendingAck A × List (PendingAck A))
  take_pending ack [] = none
  take_pending ack (p ∷ ps) =
      if equal p.expected ack
      then some (p, ps)
      else elim (take_pending ack ps) [ none ↦ none | some (q, rest) ↦ some (q, p ∷ rest) ]

  -- The goroutine that waits on the channel of the pending ack, and the others.
  unfoldable pub take_waiting :
      ℕ → List (PendingAck A) → Option (PendingAck A × List (PendingAck A))
  take_waiting goroutine [] = none
  take_waiting goroutine (p ∷ ps) =
      if p.goroutine == goroutine
      then some (p, ps)
      else elim (take_waiting goroutine ps) [ none ↦ none | some (q, rest) ↦ some (q, p ∷ rest) ]

  unfoldable pub receive_ack : ExpectedAck → ExpectedAcksList A → Received A
  receive_ack ack es = elim (take_pending ack es.pending_acks) [
    | none ↦ preempted (record es { preemptive_acks = es.preemptive_acks ++ ack ∷ [] })
    | some (p, rest) ↦ elim (take_waiting p.goroutine es.waiting) [
      | none ↦ blocked
      | some (w, others) ↦ acked w.on_ack (record es { pending_acks = rest; waiting = others })
    ]
  ]

  -- The timer of a goroutine: the pending ack stays in the list.
  unfoldable pub time_out : ℕ → ExpectedAcksList A → Option (A × ExpectedAcksList A)
  time_out goroutine es = elim (take_waiting goroutine es.waiting) [
    | none ↦ none
    | some (w, others) ↦ some (w.on_timeout, record es { waiting = others })
  ]
