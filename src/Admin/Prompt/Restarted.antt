-- ===== src/Admin/Prompt/Restarted.antt =====
-- admin/admin.go: a join after a restart, and whom the server has written to.
use uknow.Prelude.{
  ℕ, suc, ◌+◌, ◌*◌, ◌≡◌, ◌≢◌, refl, Bool, true, not, String, List, [], ◌∷◌, Option, arith, str_eq,
  length, length-append, eq_iff, Bool-cases, inl, inr, count, if◌then◌else◌,
}
use uknow.Table.{Table}
use uknow.Table.Deal.{Rand}
use uknow.Admin.Acks.{
  ExpectedAcksList, new_expected_acks_state, add_pending, delete_preemptive, make_pending,
}
use uknow.Admin.Server.{
  Admin, AckCallback, SetReadyMessage, handle_set_ready, status_see_other, adding_players, ack_of,
  log_ack, ack_id_connected_player,
}
use uknow.Admin.Dispatch.{dispatch_joined, expect_joined, expect, add_writer}
use uknow.Admin.Prompt.{restart, send_message_to_all}

-- Whether a name is not the joiner's.
abbrev pub is_other : String → String → Bool
is_other joiner name = not (str_eq name joiner)

-- One more ack is waited for, and none was kept.
record Waits (n : ℕ) (es : ExpectedAcksList AckCallback) : Type 0 where
  pub size : length es.pending_acks ≡ n
  pub none_kept : es.preemptive_acks ≡ []

expect-Waits :
    (id player : String) (n : ℕ) (es : ExpectedAcksList AckCallback)
    → Waits n es
    → Waits (suc n) (expect id player es)
unfolding add_pending delete_preemptive
expect-Waits id player n es w =
    let new = make_pending (ack_of id player) log_ack log_ack es in
    record {
      size = ground (arith, w.size, w.none_kept, length-append es.pending_acks (new ∷ []));
      none_kept = ground (arith, w.none_kept);
    }

-- Two acks for each other name.
abbrev pub acks_for : String → List String → ℕ
acks_for joiner names = 2 * count (is_other joiner) names

expect_joined-Waits :
    (joiner : String) (names : List String) (n : ℕ) (es : ExpectedAcksList AckCallback)
    → Waits n es
    → Waits (n + acks_for joiner names) (expect_joined joiner names es)
unfolding expect_joined
expect_joined-Waits joiner [] n es w = record {
  size = omega (arith, w.size);
  none_kept = w.none_kept;
}
expect_joined-Waits joiner (name ∷ names) n es w = elim (Bool-cases (str_eq name joiner)) [
  | inl e ↦
      let rest = expect_joined-Waits joiner names n es w in
      record { size = ground (arith, e, rest.size); none_kept = ground (arith, e, rest.none_kept) }
  | inr e ↦
      let rest = expect_joined-Waits joiner names (suc (suc n)) _ (
        expect-Waits (ack_id_connected_player name joiner) name (suc n) _
          (expect-Waits (ack_id_connected_player joiner name) joiner n es w)) in
      record { size = ground (arith, e, rest.size); none_kept = ground (arith, e, rest.none_kept) }
]

acks_for-add_writer :
    (joiner : String) (names : List String)
    → acks_for joiner (add_writer joiner names) ≡ acks_for joiner names
acks_for-add_writer joiner [] = ground (arith, eq_iff joiner joiner)
acks_for-add_writer joiner (name ∷ names) =
    ground (arith, eq_iff name joiner, acks_for-add_writer joiner names)

joined-after_restart :
    (joiner : String) (t : Table) (admin : Admin)
    → length (dispatch_joined joiner (restart t admin)).expected_acks_list.pending_acks
      ≡ acks_for joiner admin.sse_writer_for_player
unfolding dispatch_joined restart
joined-after_restart joiner t admin = omega (
  arith,
  (expect_joined-Waits joiner (add_writer joiner admin.sse_writer_for_player) 0
      new_expected_acks_state (record { size = refl; none_kept = refl })).size,
  acks_for-add_writer joiner admin.sse_writer_for_player,
)

joined-state :
    (joiner : String) (t : Table) (admin : Admin)
    → (dispatch_joined joiner (restart t admin)).state ≡ adding_players
unfolding dispatch_joined restart
joined-state joiner t admin = refl

-- The writers of the players are kept by a restart: the first one who joins after it is waited for with
-- two acks for each other name that had a writer before, and if there is such a name, the server is not
-- made ready, by a sender whose address is resolved, while the list of acks is as it is.
pub restart_waits_for_absent :
    (r : Rand) (order : List String) (body : Option SetReadyMessage) (joiner : String) (t : Table)
    (admin : Admin)
    → count (is_other joiner) admin.sse_writer_for_player ≢ 0
    → let a = dispatch_joined joiner (restart t admin) in
      (length a.expected_acks_list.pending_acks ≡ acks_for joiner admin.sse_writer_for_player)
      × (handle_set_ready true r order body a ≡ (status_see_other, a))
unfolding handle_set_ready
restart_waits_for_absent r order body joiner t admin n =
    let e = joined-after_restart joiner t admin in
    let adds = joined-state joiner t admin in (e, ground (arith, adds, e, n))

-- Who is written to when all others are: those of the list but the excluded one, in its order.
abbrev others_of : String → List (String × Bool) → List String
others_of exclude_player [] = []
others_of exclude_player ((name, _) ∷ writers) =
    if str_eq name exclude_player
    then others_of exclude_player writers
    else name ∷ others_of exclude_player writers

-- A message to all that is sent without an error reached everyone but the excluded player.
pub send_message_to_all_lem :
    (exclude_player : String) (writers : List (String × Bool))
    → (send_message_to_all exclude_player writers).1 ≡ true
    → (send_message_to_all exclude_player writers).0 ≡ others_of exclude_player writers
unfolding send_message_to_all
send_message_to_all_lem exclude_player [] e = refl
send_message_to_all_lem exclude_player ((name, writes) ∷ writers) e =
    ground (arith, e, send_message_to_all_lem exclude_player writers)
