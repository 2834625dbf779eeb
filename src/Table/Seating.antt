-- ===== src/Table/Seating.antt =====
-- Adding players: `IndexOfPlayer` and `PlayerNames` keep saying the same.
use uknow.Prelude.{
  ℕ, ◌+◌, ◌≤◌, ◌≡◌, refl, ◌≢◌, ◌⊎◌, inl, inr, true, false, String, List, [], ◌∷◌, ◌++◌, none, some,
  ok, err, arith, lookup, lookup-insert, lookup_or-insert, insert, str_eq, eq_iff, eq_refl,
  if◌then◌else◌, length, count, count-append, length-append, Bool-cases,
}
use uknow.Deck.{Sorter}
use uknow.Table.{Table, bare, existing_player, add_player, contains_name, create_new_table, hand_of}
use uknow.Table.Seats.{player_count, index_from}

-- The map and the list agree on the seat of every name, and no name comes twice.
pub record WellSeated (t : Table) : Type 0 where
  pub agree : (name : String) → lookup name t.index_of_player ≡ index_from 0 t.player_names name
  pub once : (name : String) → count (str_eq name) t.player_names ≤ 1

pub create_new_table-WellSeated : (s : Sorter) → WellSeated (create_new_table s)
unfolding create_new_table lookup index_from
create_new_table-WellSeated s = record { agree = λ name. refl; once = λ name. omega arith }

pub contains_name-count :
    (names : List String) (name : String)
    → contains_name names name ≡ false
    → count (str_eq name) names ≡ 0
unfolding contains_name
contains_name-count [] name e = refl
contains_name-count (other ∷ names) name e =
    ground (arith, contains_name-count names name, eq_iff other name, eq_iff name other)

contains_name-hit :
    (names : List String) (name : String)
    → contains_name names name ≡ true
    → count (str_eq name) names ≢ 0
unfolding contains_name
contains_name-hit [] name e = cc
contains_name-hit (other ∷ names) name e =
    λ z. ground (arith, contains_name-hit names name, eq_iff other name, eq_iff name other)

index_from-absent :
    (i : ℕ) (names : List String) (name : String)
    → count (str_eq name) names ≡ 0
    → index_from i names name ≡ none
unfolding index_from
index_from-absent i [] name z = refl
index_from-absent i (other ∷ names) name z =
    ground (arith, index_from-absent (i + 1) names name, eq_iff other name, eq_iff name other)

index_from-last :
    (i : ℕ) (names : List String) (name other : String)
    → count (str_eq name) names ≡ 0
    → index_from i (names ++ name ∷ []) other
      ≡ (if str_eq name other then some (i + length names) else index_from i names other)
unfolding index_from
index_from-last i [] name other z = ground arith
index_from-last i (first ∷ names) name other z = ground (
  arith,
  index_from-last (i + 1) names name other,
  eq_iff first other,
  eq_iff name other,
  eq_iff name first,
)

-- The table with one more player.
abbrev with_player : String → Table → Table
with_player name t = record t {
  player_names = t.player_names ++ name ∷ [];
  index_of_player = insert name (player_count t) t.index_of_player;
  hand_of_player = insert name [] t.hand_of_player;
}

with_player-WellSeated :
    (t : Table) (name : String)
    → count (str_eq name) t.player_names ≡ 0
    → WellSeated t
    → WellSeated (with_player name t)
with_player-WellSeated t name z w = record {
  agree = λ other. ground (
    arith,
    lookup-insert name other (player_count t) t.index_of_player,
    w.agree other,
    index_from-last 0 t.player_names name other z,
  );
  once = λ other. ground (
    arith,
    count-append (str_eq other) t.player_names (name ∷ []),
    w.once other,
    z,
    eq_iff other name,
  );
}

-- What `AddPlayer` does with a new name.
pub record Added (name : String) (t u : Table) : Type 0 where
  pub seated : WellSeated u
  pub seat : lookup name u.index_of_player ≡ some (player_count t)
  pub one_more : player_count u ≡ player_count t + 1
  pub hand : hand_of name u ≡ []
  pub others : (other : String) → name ≢ other → hand_of other u ≡ hand_of other t

-- At a table where the map and the list agree, `AddPlayer` refuses a name that already sits there,
-- and gives any other name the next free seat and an empty hand, and the map and the list agree
-- again.
pub add_player_lem :
    (t : Table) (name : String)
    → WellSeated t
    → ((count (str_eq name) t.player_names ≢ 0)
        × (add_player t name ≡ err (bare (existing_player name))))
      ⊎ ((u : Table) × (add_player t name ≡ ok u) × Added name t u)
unfolding add_player
add_player_lem t name w = elim (Bool-cases (contains_name t.player_names name)) [
  | inl e ↦ inl (contains_name-hit t.player_names name e, rw e)
  | inr e ↦
      let z = contains_name-count t.player_names name e in
      inr (
        with_player name t,
        rw e,
        record {
          seated = with_player-WellSeated t name z w;
          seat = rw (lookup-insert, eq_refl);
          one_more = omega (arith, length-append t.player_names (name ∷ []));
          hand = rw (lookup_or-insert, eq_refl);
          others = λ other n.
              ground (arith, lookup_or-insert [] name other [] t.hand_of_player, eq_iff name other);
        },
      )
]
