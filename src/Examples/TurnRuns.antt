-- ===== src/Examples/TurnRuns.antt =====
-- The theorems on turns at concrete tables.
use uknow.Prelude.{◌≡◌, refl, ◌≢◌, inr, ok, arith, String, zero, suc, some}
use uknow.Prelude.Int.{pos}
use uknow.Table.{start_of_turn}
use uknow.Table.Seats.{get_next_player, index_from}
use uknow.Table.Direction.{SeatOf}
use uknow.Table.Eval.{set_neighbor_as_next_player}
use uknow.Table.Turns.{Distinct, set_neighbor-ne-get_next_player}
use uknow.Prelude.{lookup, str_eq, eq_iff, false}
use uknow.Examples.{reversed_table, game_of}

reversed_table-SeatOf : SeatOf reversed_table "bob" 1
unfolding lookup index_from
reversed_table-SeatOf = record {
  directed = inr refl;
  first = refl;
  index = refl;
  inside = omega arith;
}

apart : (s t name : String) → str_eq s t ≡ false → some s ≡ some name → some t ≡ some name → ⊥
apart s t name e p q = ground (arith, eq_iff s t)

-- The seats of "ann", "bob" and "cyd".
reversed_table-Distinct : Distinct reversed_table
reversed_table-Distinct zero zero name p q = refl
reversed_table-Distinct zero (suc zero) name p q = absurd (apart "ann" "bob" name refl p q)
reversed_table-Distinct zero (suc (suc zero)) name p q = absurd (apart "ann" "cyd" name refl p q)
reversed_table-Distinct zero (suc (suc (suc k))) name p q = cc
reversed_table-Distinct (suc zero) zero name p q = absurd (apart "bob" "ann" name refl p q)
reversed_table-Distinct (suc zero) (suc zero) name p q = refl
reversed_table-Distinct (suc zero) (suc (suc zero)) name p q =
    absurd (apart "bob" "cyd" name refl p q)
reversed_table-Distinct (suc zero) (suc (suc (suc k))) name p q = cc
reversed_table-Distinct (suc (suc zero)) zero name p q = absurd (apart "cyd" "ann" name refl p q)
reversed_table-Distinct (suc (suc zero)) (suc zero) name p q =
    absurd (apart "cyd" "bob" name refl p q)
reversed_table-Distinct (suc (suc zero)) (suc (suc zero)) name p q = refl
reversed_table-Distinct (suc (suc zero)) (suc (suc (suc k))) name p q = cc
reversed_table-Distinct (suc (suc (suc j))) k name p q = cc

set_neighbor-ne-get_next_player_example :
    (get_next_player reversed_table (pos 1) ≡ ok "ann")
    × ((set_neighbor_as_next_player "bob" start_of_turn
          (game_of reversed_table)).1.table.player_of_next_turn
        ≡ "cyd")
    × (◌≢◌ {A = String} "ann" "cyd")
set_neighbor-ne-get_next_player_example =
    set_neighbor-ne-get_next_player (game_of reversed_table) "bob" 1 "ann" "cyd" start_of_turn
      reversed_table-SeatOf refl refl (omega arith) reversed_table-Distinct refl refl
