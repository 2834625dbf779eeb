-- ===== src/Examples/HistoryRuns.antt =====
-- The theorems on the history at concrete rings.
use uknow.Prelude.{◌≡◌, [], ◌∷◌, some, arith}
use uknow.History.{HistoryRing, new_history_ring, push}
use uknow.History.Contents.{Holds, new_history_ring-Holds, push-Holds}

push-Holds_example :
    (r : HistoryRing) × (push (new_history_ring 2) "draw" ≡ some r) × Holds 2 ("draw" ∷ []) r
push-Holds_example = push-Holds "draw" (new_history_ring-Holds 2 (omega arith))
