-- ===== src/Table/Seats.antt =====
-- uknow.go: who sits where, and whose turn is next.
use uknow.Prelude.{
  ℕ, zero, suc, ◌+◌, String, List, [], ◌∷◌, Option, none, some, Outcome, ok, panic, or_err,
  or_panic, ◌>>=◌, lookup, lookup_or, str_eq, if◌then◌else◌, length, get_elem?, ◌==◌,
}
use uknow.Prelude.Int.{ℤ, pos, negsuc, ◌+ℤ◌, ◌*ℤ◌, ◌%ℤ◌, neg, is_negative}
use uknow.Table.{Table, TableError, bare, err_should_not_happen}

abbrev pub player_count : Table → ℕ
player_count t = length t.player_names

-- `i := x % n; if i < 0 { return n + i }; return i`, where `x % 0` panics.
unfoldable pub wrap_index : ℕ → ℤ → Outcome TableError ℤ
unfolding ◌+ℤ◌ ◌%ℤ◌
wrap_index n x =
    if n == 0 then panic else let i = x %ℤ n in if is_negative i then ok (pos n +ℤ i) else ok i

unfoldable pub get_next_player_index : Table → ℤ → ℤ → Outcome TableError ℤ
unfolding wrap_index ◌*ℤ◌
get_next_player_index t cur_player_index step =
    wrap_index (player_count t) (cur_player_index +ℤ t.direction *ℤ step)

unfoldable pub get_player_index : Table → ℤ → ℤ → ℤ → Outcome TableError ℤ
unfolding wrap_index ◌*ℤ◌
get_player_index t starting_player_index step direction =
    wrap_index (player_count t) (starting_player_index +ℤ direction *ℤ step)

-- `t.PlayerNames[i]`
unfoldable pub player_at : Table → ℤ → Outcome TableError String
player_at t (pos i) = or_panic (get_elem? t.player_names i)
player_at t (negsuc i) = panic

abbrev current_player_index : Table → Outcome TableError ℕ
current_player_index t =
    or_err (lookup t.player_of_next_turn t.index_of_player)
      (bare (err_should_not_happen t.player_of_next_turn))

unfoldable pub get_previous_player : Table → Outcome TableError String
unfolding get_player_index player_at lookup neg
get_previous_player t = do
  cur ← current_player_index t
  prev ← get_player_index t (pos cur) (pos 1) (neg t.direction)
  player_at t prev

unfoldable pub get_next_player : Table → ℤ → Outcome TableError String
unfolding wrap_index player_at lookup ◌*ℤ◌
get_next_player t step = do
  cur ← current_player_index t
  next ← wrap_index (player_count t) (pos cur +ℤ t.direction *ℤ step)
  player_at t next

unfoldable pub index_from : ℕ → List String → String → Option ℕ
index_from i [] player_name = none
index_from i (name ∷ names) player_name =
    if str_eq name player_name then some i else index_from (i + 1) names player_name

unfoldable pub player_index_from_name : Table → String → Outcome TableError ℕ
unfolding index_from
player_index_from_name t player_name = or_panic (index_from 0 t.player_names player_name)

-- The loop of `PlayerIndicesSortedByTurn`, with the rounds that are left.
unfoldable pub indices_from : Table → ℕ → ℤ → Outcome TableError (List ℤ)
unfolding get_next_player_index
indices_from t zero cur_index = ok []
indices_from t (suc rounds) cur_index = do
  next ← get_next_player_index t cur_index (pos 1)
  rest ← indices_from t rounds next
  ok (cur_index ∷ rest)

unfoldable pub player_indices_sorted_by_turn : Table → Outcome TableError (List ℤ)
unfolding indices_from lookup_or
player_indices_sorted_by_turn t =
    indices_from t (player_count t) (pos (lookup_or 0 t.player_of_next_turn t.index_of_player))
