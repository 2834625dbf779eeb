-- ===== src/Admin/Acks/Matching.antt =====
-- How acks and what is waited for cancel.
use mathlib.Core.Path.{subst}
use uknow.Prelude.{
  ◌+◌, ◌≡◌, refl, sym, ◌∙◌, ◌⊎◌, inl, inr, Bool, true, List, [], ◌∷◌, ◌++◌, none, some, arith,
  eq_iff, eq_refl, count, one, count-append, Bool-cases, Option-cases,
}
use uknow.Admin.Acks.{
  ExpectedAck, PendingAck, ExpectedAcksList, equal, delete_preemptive, make_pending, add_pending,
  take_pending, take_waiting, Received, acked, preempted, blocked, receive_ack,
}

pub equal_refl : (a : ExpectedAck) → equal a a ≡ true
equal_refl a = ground (arith, eq_refl a.ack_id, eq_refl a.acker_player_name)

equal_swap : (a b x : ExpectedAck) → equal a b ≡ true → equal a x ≡ equal b x
equal_swap a b x e =
    ground (arith, eq_iff a.ack_id b.ack_id, eq_iff a.acker_player_name b.acker_player_name)

abbrev pub is_for : {A : Type 0} → ExpectedAck → PendingAck A → Bool
is_for x p = equal p.expected x

abbrev pub is_ack : ExpectedAck → ExpectedAck → Bool
is_ack x a = equal a x

equal_swap_right : (a b x : ExpectedAck) → equal a b ≡ true → equal x b ≡ equal x a
equal_swap_right a b x e =
    ground (arith, eq_iff a.ack_id b.ack_id, eq_iff a.acker_player_name b.acker_player_name)

count-is_ack :
    (a x : ExpectedAck) (acks : List ExpectedAck)
    → equal a x ≡ true
    → count (is_ack x) acks ≡ count (is_ack a) acks
count-is_ack a x [] e = refl
count-is_ack a x (b ∷ acks) e = ground (arith, equal_swap_right a x b e, count-is_ack a x acks e)

count-is_for :
    {A : Type 0} (a x : ExpectedAck) (ps : List (PendingAck A))
    → equal a x ≡ true
    → count (is_for x) ps ≡ count (is_for a) ps
count-is_for a x [] e = refl
count-is_for a x (p ∷ ps) e =
    ground (arith, equal_swap_right a x p.expected e, count-is_for a x ps e)

pub delete_preemptive-count :
    (ack : ExpectedAck) (acks : List ExpectedAck)
    → ((delete_preemptive ack acks ≡ none) × (count (is_ack ack) acks ≡ 0))
      ⊎ ((rest : List ExpectedAck) × (delete_preemptive ack acks ≡ some rest)
          × ((x : ExpectedAck)
              → count (is_ack x) acks ≡ count (is_ack x) rest + one (is_ack x) ack))
unfolding delete_preemptive
delete_preemptive-count ack [] = inl (refl, refl)
delete_preemptive-count ack (a ∷ acks) = elim (Bool-cases (equal a ack)) [
  | inl e ↦ inr (acks, ground (arith, e), λ x. ground (arith, equal_swap a ack x e))
  | inr n ↦ elim (delete_preemptive-count ack acks) [
    | inl (e, z) ↦ inl (ground (arith, n, e), ground (arith, n, z))
    | inr (rest, e, c) ↦ inr (a ∷ rest, ground (arith, n, e), λ x. omega (arith, c x))
  ]
]

module _ {A : Type 0} where
  take_pending-count :
      (ack : ExpectedAck) (ps : List (PendingAck A))
      → ((take_pending ack ps ≡ none) × (count (is_for ack) ps ≡ 0))
        ⊎ ((p : PendingAck A) × (rest : List (PendingAck A)) × (take_pending ack ps
              ≡ some (p, rest))
            × ((x : ExpectedAck)
                → count (is_for x) ps ≡ count (is_for x) rest + one (is_ack x) ack))
  unfolding take_pending
  take_pending-count ack [] = inl (refl, refl)
  take_pending-count ack (p ∷ ps) = elim (Bool-cases (equal p.expected ack)) [
    | inl e ↦ inr (p, ps, ground (arith, e), λ x. ground (arith, equal_swap p.expected ack x e))
    | inr n ↦ elim (take_pending-count ack ps) [
      | inl (e, z) ↦ inl (ground (arith, n, e), ground (arith, n, z))
      | inr (q, rest, e, c) ↦ inr (q, p ∷ rest, ground (arith, n, e), λ x. omega (arith, c x))
    ]
  ]

  -- No ack is waited for and kept for later at once.
  abbrev pub Disjoint : ExpectedAcksList A → Type 0
  Disjoint es =
      (x : ExpectedAck)
      → (count (is_for x) es.pending_acks ≡ 0) ⊎ (count (is_ack x) es.preemptive_acks ≡ 0)

  -- The balance of an ack: u has one more that is waited for, or one less that is kept, than t.
  abbrev pub OneMore : ExpectedAck → ExpectedAcksList A → ExpectedAcksList A → Type 0
  OneMore ack t u =
      (x : ExpectedAck)
      → count (is_for x) u.pending_acks + count (is_ack x) t.preemptive_acks
        ≡ count (is_for x) t.pending_acks + count (is_ack x) u.preemptive_acks + one (is_ack x) ack

  add_OneMore :
      (ack : ExpectedAck) (f g : A) (es : ExpectedAcksList A)
      → OneMore ack es (add_pending ack f g es)
  unfolding add_pending
  add_OneMore ack f g es x = elim (delete_preemptive-count ack es.preemptive_acks) [
    | inl (e, z) ↦
        ground (arith, e, count-append (is_for x) es.pending_acks (make_pending ack f g es ∷ []))
    | inr (rest, e, c) ↦ ground (arith, e, c x)
  ]

  add_Disjoint :
      (ack : ExpectedAck) (f g : A) (es : ExpectedAcksList A)
      → Disjoint es
      → Disjoint (add_pending ack f g es)
  unfolding add_pending
  add_Disjoint ack f g es d x = elim (delete_preemptive-count ack es.preemptive_acks) [
    | inl (e, z) ↦ elim (Bool-cases (equal ack x)) [
      | inl t ↦ inr (ground (arith, e, z, count-is_ack ack x es.preemptive_acks t))
      | inr n ↦
          ground (
            arith,
            e,
            n,
            d x,
            count-append (is_for x) es.pending_acks (make_pending ack f g es ∷ []),
          )
    ]
    | inr (rest, e, c) ↦ ground (arith, e, c x, d x)
  ]

  -- Adding what is waited for adds one to the balance of that ack and of no other, and nothing is
  -- then both waited for and kept.
  pub add_pending-balance :
      (ack : ExpectedAck) (f g : A) (es : ExpectedAcksList A)
      → Disjoint es
      → OneMore ack es (add_pending ack f g es) × Disjoint (add_pending ack f g es)
  add_pending-balance ack f g es d = (add_OneMore ack f g es, add_Disjoint ack f g es d)

  -- The list after a round that did not block.
  abbrev pub Leaves : Received A → (ExpectedAcksList A → Type 0) → Type 0
  Leaves (acked _ es) P = P es
  Leaves (preempted es) P = P es
  Leaves blocked P = Unit

  abbrev pub kept : ExpectedAck → ExpectedAcksList A → ExpectedAcksList A
  kept ack es = record es { preemptive_acks = es.preemptive_acks ++ ack ∷ [] }

  kept-Disjoint :
      (ack : ExpectedAck) (es : ExpectedAcksList A)
      → count (is_for ack) es.pending_acks ≡ 0
      → Disjoint es
      → Disjoint (kept ack es)
  kept-Disjoint ack es z d x = elim (Bool-cases (equal ack x)) [
    | inl t ↦ inl (count-is_for ack x es.pending_acks t ∙ z)
    | inr n ↦ ground (arith, n, d x, count-append (is_ack x) es.preemptive_acks (ack ∷ []))
  ]

  pub receive-kept :
      (ack : ExpectedAck) (es : ExpectedAcksList A)
      → take_pending ack es.pending_acks ≡ none
      → receive_ack ack es ≡ preempted (kept ack es)
  unfolding receive_ack
  receive-kept ack es e = ground (arith, e)

  pub receive-blocked :
      (ack : ExpectedAck) (es : ExpectedAcksList A) (p : PendingAck A) (rest : List (PendingAck A))
      → take_pending ack es.pending_acks ≡ some (p, rest)
      → take_waiting p.goroutine es.waiting ≡ none
      → receive_ack ack es ≡ blocked
  unfolding receive_ack
  receive-blocked ack es p rest e f = ground (arith, e, f)

  pub receive-acked :
      (ack : ExpectedAck) (es : ExpectedAcksList A) (p w : PendingAck A)
      (rest others : List (PendingAck A))
      → take_pending ack es.pending_acks ≡ some (p, rest)
      → take_waiting p.goroutine es.waiting ≡ some (w, others)
      → receive_ack ack es ≡ acked w.on_ack (record es { pending_acks = rest; waiting = others })
  unfolding receive_ack
  receive-acked ack es p w rest others e f = ground (arith, e, f)

  -- A received ack takes one from the balance of that ack and of no other, and nothing is then both
  -- waited for and kept, unless the round blocks.
  pub receive_ack-balance :
      (ack : ExpectedAck) (es : ExpectedAcksList A)
      → Disjoint es
      → Leaves (receive_ack ack es) (λ u. OneMore ack u es × Disjoint u)
  receive_ack-balance ack es d = elim (take_pending-count ack es.pending_acks) [
    | inl (e, z) ↦
        subst (λ r. Leaves r (λ u. OneMore ack u es × Disjoint u)) (sym (receive-kept ack es e))
          (
            (λ x. omega (arith, count-append (is_ack x) es.preemptive_acks (ack ∷ []))),
            kept-Disjoint ack es z d,
          )
    | inr (p, rest, e, c) ↦ elim (Option-cases (take_waiting p.goroutine es.waiting)) [
      | inl f ↦
          subst (λ r. Leaves r (λ u. OneMore ack u es × Disjoint u))
            (sym (receive-blocked ack es p rest e f)) tt
      | inr ((w, others), f) ↦
          subst (λ r. Leaves r (λ u. OneMore ack u es × Disjoint u))
            (sym (receive-acked ack es p w rest others e f))
            ((λ x. omega (arith, c x)), λ x. ground (arith, c x, d x))
    ]
  ]
