-- ===== src/Examples/DealRuns.antt =====
-- The theorems on deals and players at concrete tables.
use mathlib.Core.Path.{subst}
use uknow.Prelude.{
  sym, Bool-cases, ℕ, zero, suc, ◌<◌, ◌≤◌, ◌≡◌, ◌≢◌, refl, inl, inr, String, List, [], ◌∷◌, some,
  ok, arith, lookup, lookup_or, count, str_eq, eq_iff,
}
use uknow.Prelude.Int.{pos}
use uknow.Table.{Table, hand_of}
use uknow.Table.Deal.{Rand, shuffle_deck_and_distribute}
use uknow.Table.Deal.Start.{Started, shuffle_deck_and_distribute-Started}
use uknow.Table.Seats.{player_count}
use uknow.Table.Rearranging.{
  NameSorter, AllSeats, Rearranged, rearrange_player_indices, rearrange_player_indices-Rearranged,
}
use uknow.Examples.{three_players}

abbrev pub pred : ℕ → ℕ
pred zero = 0
pred (suc n) = n

pub pred_lt : (n : ℕ) → 0 < n → pred n < n
pred_lt zero h = absurd (omega (arith, h))
pred_lt (suc n) h = omega arith

-- Always the largest number.
abbrev pub last_of : Rand
last_of = record { intn = pred; intn_lt = pred_lt }

-- Two players with empty hands; "ann" shuffles.
abbrev pub two_players : Table
two_players = record three_players {
  player_names = "ann" ∷ "bob" ∷ [];
  index_of_player = ("ann", 0) ∷ ("bob", 1) ∷ [];
  hand_of_player = ("ann", []) ∷ ("bob", []) ∷ [];
  discarded_pile = [];
}

abbrev both : List String
both = "bob" ∷ "ann" ∷ []

both-once : (name : String) → count (str_eq name) both ≤ 1
both-once name = elim (Bool-cases (str_eq name "bob")) [
  | inl e ↦ subst (λ n. count (str_eq n) both ≤ 1) (sym ((eq_iff name "bob").0 e)) (omega arith)
  | inr e ↦ ground (arith, e)
]

both-empty : (name : String) → count (str_eq name) both ≢ 0 → hand_of name two_players ≡ []
unfolding lookup lookup_or
both-empty name n = ground arith

shuffler-seat : lookup "ann" two_players.index_of_player ≡ some 0
unfolding lookup
shuffler-seat = refl

shuffle_deck_and_distribute-Started_example :
    (u : Table) × (shuffle_deck_and_distribute last_of both (pos 2) two_players ≡ ok u)
    × Started 2 both 0 two_players u
shuffle_deck_and_distribute-Started_example =
    shuffle_deck_and_distribute-Started 2 both 0 two_players (inl refl) shuffler-seat (omega arith)
      (omega arith) both-empty both-once last_of (omega arith) (omega arith)

-- A sorting that leaves the names as they are.
abbrev as_they_are : NameSorter
as_they_are = record { sort_names = λ names. names; sort_names_counts = λ p names. refl }

both-seats : AllSeats 2 (1 ∷ 0 ∷ [])
both-seats zero j e = ground (arith, e)
both-seats (suc zero) j e = ground (arith, e)
both-seats (suc (suc k)) j e = cc

abbrev players_of_two : Table
players_of_two = record two_players { player_names = both }

rearrange_player_indices-Rearranged_example :
    (u : Table) × (rearrange_player_indices as_they_are (1 ∷ 0 ∷ []) players_of_two ≡ ok u)
    × Rearranged (player_count u) players_of_two u
rearrange_player_indices-Rearranged_example =
    rearrange_player_indices-Rearranged as_they_are (1 ∷ 0 ∷ []) players_of_two both-once refl
      both-seats
