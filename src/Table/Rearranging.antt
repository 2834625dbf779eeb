-- ===== src/Table/Rearranging.antt =====
-- uknow.go: `RearrangePlayerIndices`, and that the map then says where every player sits.
use uknow.Prelude.{
  ℕ, zero, suc, ◌+◌, ◌≤◌, ◌<◌, ◌≡◌, refl, sym, ap, ◌∙◌, Bool, true, String, List, [], ◌∷◌, some,
  Outcome, ok, or_panic, ◌>>=◌, arith, lookup, lookup-insert, insert, str_eq, eq_iff, if◌then◌else◌,
  length, count, get_elem?, get_elem?-set_at, get_elem?_in, set, swap_elements, ◌==◌, length-set,
  count-all, count-swap_at,
}
use uknow.Table.{Table, TableError}
use uknow.Table.Seats.{player_count}
use uknow.Table.Direction.{SitsAt}

-- `sort.Sort` of names: its result is a rearrangement.
pub record NameSorter : Type 0 where
  pub sort_names : List String → List String
  pub sort_names_counts :
      (p : String → Bool) (names : List String) → count p (sort_names names) ≡ count p names

-- The body of the loop: two names change places, and the map is told.
unfoldable pub rearrange_step : ℕ → ℕ → Table → Outcome TableError Table
rearrange_step i j t = do
  names ← or_panic (swap_elements t.player_names i j)
  name_i ← or_panic (get_elem? names i)
  name_j ← or_panic (get_elem? names j)
  ok (record t {
    player_names = names;
    index_of_player = insert name_j j (insert name_i i t.index_of_player);
  })

unfoldable pub rearrange_from : ℕ → List ℕ → Table → Outcome TableError Table
rearrange_from i [] t = ok t
rearrange_from i (j ∷ indices) t = do u ← rearrange_step i j t; rearrange_from (i + 1) indices u

unfoldable pub rearrange_player_indices : NameSorter → List ℕ → Table → Outcome TableError Table
rearrange_player_indices s indices t =
    rearrange_from 0 indices (record t { player_names = s.sort_names t.player_names })

-- Where the element at a place comes from.
abbrev swapped : ℕ → ℕ → ℕ → ℕ
swapped i j p = if p == i then j else if p == j then i else p

-- No name sits at two places.
abbrev pub Distinct : List String → Type 0
Distinct xs = (j k : ℕ) (x : String) → get_elem? xs j ≡ some x → get_elem? xs k ≡ some x → j ≡ k

get_elem?-count :
    (xs : List String) (k : ℕ) (x : String) → get_elem? xs k ≡ some x → 1 ≤ count (str_eq x) xs
get_elem?-count [] k x e = cc
get_elem?-count (y ∷ xs) zero x e = ground (arith, eq_iff x y, e)
get_elem?-count (y ∷ xs) (suc k) x e = omega (arith, get_elem?-count xs k x e)

Distinct-count : (xs : List String) → ((x : String) → count (str_eq x) xs ≤ 1) → Distinct xs
Distinct-count [] once j k x e f = cc
Distinct-count (y ∷ xs) once zero zero x e f = refl
Distinct-count (y ∷ xs) once zero (suc k) x e f =
    absurd (ground (arith, get_elem?-count xs k x f, once x, eq_iff x y, e))
Distinct-count (y ∷ xs) once (suc j) zero x e f =
    absurd (ground (arith, get_elem?-count xs j x e, once x, eq_iff x y, f))
Distinct-count (y ∷ xs) once (suc j) (suc k) x e f =
    ap suc (Distinct-count xs (λ z. omega (arith, once z)) j k x e f)

get_elem?-swap :
    (xs : List String) (i j p : ℕ) (a b : String)
    → i < length xs
    → j < length xs
    → get_elem? xs i ≡ some a
    → get_elem? xs j ≡ some b
    → get_elem? (set (set xs i b) j a) p ≡ get_elem? xs (swapped i j p)
get_elem?-swap xs i j p a b hi hj ea eb = ground (
  arith,
  get_elem?-set_at (set xs i b) j p a (omega (arith, hj, length-set xs i b)),
  get_elem?-set_at xs i p b hi,
)

-- The map says of the first k seats who sits there.
abbrev pub Placed : ℕ → Table → Type 0
Placed k t =
    (p : ℕ) (name : String) → p < k → SitsAt t p name → lookup name t.index_of_player ≡ some p

module _ (t : Table) (i j : ℕ) (a b : String) (hi : i < player_count t) (hj : j < player_count t)
    (ea : SitsAt t i a) (eb : SitsAt t j b) (distinct : Distinct t.player_names) where
  abbrev moved : Table
  moved = record t {
    player_names = set (set t.player_names i b) j a;
    index_of_player = insert a j (insert b i t.index_of_player);
  }

  moved-at : (p : ℕ) → get_elem? moved.player_names p ≡ get_elem? t.player_names (swapped i j p)
  moved-at p = get_elem?-swap t.player_names i j p a b hi hj ea eb

  moved-Distinct : Distinct moved.player_names
  moved-Distinct p q x e f = ground (
    arith,
    moved-at p,
    moved-at q,
    distinct (swapped i j p) (swapped i j q) x (sym (moved-at p) ∙ e) (sym (moved-at q) ∙ f),
  )

  step-moved : rearrange_step i j t ≡ ok moved
  unfolding rearrange_step
  step-moved = ground (arith, ea, eb, moved-at i, moved-at j)

  moved-Placed : Placed i t → Placed (i + 1) moved
  moved-Placed placed p name h e = ground (
    arith,
    lookup-insert a name j (insert b i t.index_of_player),
    lookup-insert b name i t.index_of_player,
    eq_iff a name,
    eq_iff b name,
    eq_iff a b,
    sym (moved-at p) ∙ e,
    placed p name,
    distinct i (swapped i j p) name,
    distinct j (swapped i j p) name,
  )

-- Every index of the list is a seat of n.
abbrev pub AllSeats : ℕ → List ℕ → Type 0
AllSeats n indices = (k j : ℕ) → get_elem? indices k ≡ some j → j < n

-- The same names, in the same number, and the map says where the first k of them sit.
pub record Rearranged (k : ℕ) (t u : Table) : Type 0 where
  pub placed : Placed k u
  pub distinct : Distinct u.player_names
  pub seats : player_count u ≡ player_count t
  pub names : (p : String → Bool) → count p u.player_names ≡ count p t.player_names

rearrange_from-Rearranged :
    (i : ℕ) (indices : List ℕ) (t : Table)
    → Placed i t
    → Distinct t.player_names
    → AllSeats (player_count t) indices
    → i + length indices ≤ player_count t
    → (u : Table) × (rearrange_from i indices t ≡ ok u) × Rearranged (i + length indices) t u
unfolding rearrange_from
rearrange_from-Rearranged i [] t placed distinct seats h = (
  t,
  refl,
  record {
    placed = λ p name l e. placed p name (omega (arith, l)) e;
    distinct = distinct;
    seats = refl;
    names = λ p. refl;
  },
)
rearrange_from-Rearranged i (j ∷ indices) t placed distinct seats h =
    let hi : i < player_count t = omega (arith, h) in
    let hj : j < player_count t = seats 0 j refl in
    let (a, ea) = get_elem?_in t.player_names i hi in
    let (b, eb) = get_elem?_in t.player_names j hj in
    let v = moved t i j a b hi hj ea eb distinct in
    let n : player_count v ≡ player_count t =
      length-set (set t.player_names i b) j a ∙ length-set t.player_names i b in
    let (u, e, r) =
      rearrange_from-Rearranged (i + 1) indices v
        (moved-Placed t i j a b hi hj ea eb distinct placed)
        (moved-Distinct t i j a b hi hj ea eb distinct)
        (λ k l f. omega (arith, seats (suc k) l f, n)) (omega (arith, h, n)) in
    (
      u,
      ground (arith, step-moved t i j a b hi hj ea eb distinct, e),
      record {
        placed = λ p name l f. r.placed p name (omega (arith, l)) f;
        distinct = r.distinct;
        seats = r.seats ∙ n;
        names = λ p. r.names p ∙ count-swap_at p t.player_names i j a b ea eb;
      },
    )

-- Rearranging the players of a table at which no name comes twice, by as many indices as there are
-- seats, each of a seat: it returns, the same names sit at the table, and the map says of every seat
-- who sits there, whatever it said before.
pub rearrange_player_indices-Rearranged :
    (s : NameSorter) (indices : List ℕ) (t : Table)
    → ((name : String) → count (str_eq name) t.player_names ≤ 1)
    → length indices ≡ player_count t
    → AllSeats (player_count t) indices
    → (u : Table) × (rearrange_player_indices s indices t ≡ ok u) × Rearranged (player_count u) t u
unfolding rearrange_player_indices
rearrange_player_indices-Rearranged s indices t once l seats =
    let sorted = record t { player_names = s.sort_names t.player_names } in
    let n : player_count sorted ≡ player_count t =
      sym (count-all (s.sort_names t.player_names))
      ∙ s.sort_names_counts (λ _. true) t.player_names
      ∙ count-all t.player_names in
    let (u, e, r) =
      rearrange_from-Rearranged 0 indices sorted (λ p name h f. absurd (omega (arith, h)))
        (Distinct-count (s.sort_names t.player_names)
          (λ name. omega (arith, s.sort_names_counts (str_eq name) t.player_names, once name)))
        (λ k j f. omega (arith, seats k j f, n)) (omega (arith, l, n)) in
    (
      u,
      e,
      record {
        placed = λ p name h f. r.placed p name (omega (arith, h, r.seats, l, n)) f;
        distinct = r.distinct;
        seats = r.seats ∙ n;
        names = λ p. r.names p ∙ s.sort_names_counts p t.player_names;
      },
    )
