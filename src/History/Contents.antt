-- ===== src/History/Contents.antt =====
-- The ring as a list of the last items, the newest first, of which it keeps as many as it has room.
use native.Mathlib.Nat.{mod-lt, mod-eq_of_lt, mod-eq-sub-mod}
use uknow.Prelude.{
  ℕ, zero, suc, ◌+◌, ◌-◌, ◌%◌, ◌≤◌, ◌<◌, ◌≡◌, ◌≢◌, refl, sym, ap, ap₂, ◌∙◌, inl, inr, some, String,
  List, [], ◌∷◌, arith, ltb, ◌==◌, if◌then◌else◌, length, get_elem?, set, length-set,
  length-replicate, take, length-take, min, Bool-cases,
}
use uknow.History.{HistoryRing, new_history_ring, push, overwrite, append_item}

-- The place of the item that came k items before the newest one.
abbrev pub place_of : HistoryRing → ℕ → ℕ
place_of r k = (r.head + r.size - 1 - k) % length r.buffer

-- The ring has room for n items and holds the items of the list.
pub record Holds (n : ℕ) (xs : List String) (r : HistoryRing) : Type 0 where
  pub room : length r.buffer ≡ n
  pub some_room : 0 < n
  pub head_in : r.head < n
  pub size_in : r.size ≤ n
  pub size : r.size ≡ length xs
  pub at :
      (k : ℕ) (x : String) → get_elem? xs k ≡ some x → get_elem? r.buffer (place_of r k) ≡ some x

pub new_history_ring-Holds : (n : ℕ) → 0 < n → Holds n [] (new_history_ring n)
unfolding new_history_ring
new_history_ring-Holds n h = record {
  room = length-replicate n "";
  some_room = h;
  head_in = h;
  size_in = omega arith;
  size = refl;
  at = λ k x e. cc;
}

-- A number below 2n is reduced by one subtraction.
abbrev wrap : ℕ → ℕ → ℕ
wrap n a = if ltb a n then a else a - n

pub mod-wrap : (n a : ℕ) → a < n + n → a % n ≡ wrap n a
mod-wrap n a h = elim (Bool-cases (ltb a n)) [
  | inl e ↦ rw e (mod-eq_of_lt (ground (arith, e)))
  | inr e ↦ rw e (mod-eq-sub-mod (ground (arith, e)) ∙ mod-eq_of_lt (ground (arith, e)))
]

get_elem?-set_same :
    (xs : List String) (i : ℕ) (v : String) → i < length xs → get_elem? (set xs i v) i ≡ some v
get_elem?-set_same [] i v h = absurd (omega (arith, h))
get_elem?-set_same (x ∷ xs) zero v h = refl
get_elem?-set_same (x ∷ xs) (suc i) v h = get_elem?-set_same xs i v (omega (arith, h))

get_elem?-set_other :
    (xs : List String) (i j : ℕ) (v : String) → i ≢ j → get_elem? (set xs i v) j ≡ get_elem? xs j
get_elem?-set_other [] i j v h = refl
get_elem?-set_other (x ∷ xs) zero zero v h = absurd (h refl)
get_elem?-set_other (x ∷ xs) zero (suc j) v h = refl
get_elem?-set_other (x ∷ xs) (suc i) zero v h = refl
get_elem?-set_other (x ∷ xs) (suc i) (suc j) v h = get_elem?-set_other xs i j v (λ e. h (ap suc e))

pub get_elem?-bound :
    (xs : List String) (k : ℕ) (x : String) → get_elem? xs k ≡ some x → k < length xs
get_elem?-bound [] k x e = cc
get_elem?-bound (y ∷ xs) zero x e = omega arith
get_elem?-bound (y ∷ xs) (suc k) x e = omega (arith, get_elem?-bound xs k x e)

get_elem?-take :
    (n : ℕ) (xs : List String) (k : ℕ) (x : String)
    → get_elem? (take n xs) k ≡ some x
    → (get_elem? xs k ≡ some x) × (k < n)
get_elem?-take zero xs k x e = cc
get_elem?-take (suc n) [] k x e = cc
get_elem?-take (suc n) (y ∷ xs) zero x e = (e, omega arith)
get_elem?-take (suc n) (y ∷ xs) (suc k) x e =
    let (g, h) = get_elem?-take n xs k x e in (g, omega (arith, h))

-- After an item is overwritten, the places move by one.
full_place :
    (n head k : ℕ) → head < n → k < n → ((head + 1) % n + n - 1 - k) % n ≡ (head + n - k) % n
full_place n head k h b = grind (
  arith,
  mod-wrap n (head + 1) (omega arith),
  mod-wrap n (wrap n (head + 1) + n - 1 - k) (ground arith),
  mod-wrap n (head + n - k) (omega arith),
)

apart_places : (n a b : ℕ) → b < a → a < b + n → a < n + n → a % n ≢ b % n
apart_places n a b l u h e = ground (arith, mod-wrap n a h, mod-wrap n b (omega arith))

module _ {n : ℕ} {xs : List String} {r : HistoryRing} (item : String) (h : Holds n xs r) where
  module _ (e : r.size ≡ n) where
    overwritten : HistoryRing
    overwritten = record {
      buffer = set r.buffer r.head item;
      head = (r.head + 1) % n;
      size = r.size;
    }

    overwritten-place : (k : ℕ) → k < n → place_of overwritten k ≡ (r.head + n - k) % n
    unfolding overwritten
    overwritten-place k b =
        ap₂ ◌%◌ (omega (arith, e)) (length-set r.buffer r.head item ∙ h.room)
        ∙ full_place n r.head k h.head_in b

    overwritten-at :
        (k : ℕ) (x : String)
        → k < n
        → get_elem? (item ∷ xs) k ≡ some x
        → get_elem? overwritten.buffer (place_of overwritten k) ≡ some x
    unfolding overwritten
    overwritten-at zero x b g = ground (
      arith,
      overwritten-place zero b,
      mod-wrap n (r.head + n) (omega (arith, h.head_in)),
      get_elem?-set_same r.buffer r.head item (omega (arith, h.head_in, h.room)),
    )
    overwritten-at (suc k) x b g = ground (
      arith,
      overwritten-place (suc k) b,
      h.at k x g,
      get_elem?-set_other r.buffer r.head ((r.head + n - suc k) % n) item (λ q.
          apart_places n (r.head + n - suc k) r.head (omega arith) (omega arith)
            (omega (arith, h.head_in)) (sym (mod-eq_of_lt h.head_in ∙ q))),
    )

  module _ (o : r.size < n) where
    extended : HistoryRing
    extended = record {
      buffer = set r.buffer ((r.head + r.size) % n) item;
      head = r.head;
      size = r.size + 1;
    }

    extended-place : (k : ℕ) → place_of extended k ≡ (r.head + r.size - k) % n
    unfolding extended
    extended-place k =
        ap₂ ◌%◌ (omega arith) (length-set r.buffer ((r.head + r.size) % n) item ∙ h.room)

    extended-at :
        (k : ℕ) (x : String)
        → get_elem? (item ∷ xs) k ≡ some x
        → get_elem? extended.buffer (place_of extended k) ≡ some x
    unfolding extended
    extended-at zero x g = ground (
      arith,
      extended-place zero,
      get_elem?-set_same r.buffer ((r.head + r.size) % n) item
          (omega (arith, mod-lt (r.head + r.size) h.some_room, h.room)),
    )
    extended-at (suc k) x g =
        let b = get_elem?-bound xs k x g in
        ground (
          arith,
          extended-place (suc k),
          h.at k x g,
          h.room,
          get_elem?-set_other r.buffer ((r.head + r.size) % n) ((r.head + r.size - suc k) % n) item
              (apart_places n (r.head + r.size) (r.head + r.size - suc k) (omega (arith, h.size))
                (omega (arith, h.size)) (omega (arith, h.head_in))),
        )

  push-overwritten : (e : r.size ≡ n) → push r item ≡ some (overwritten e)
  unfolding push overwrite overwritten
  push-overwritten e = ground (
    arith,
    mod-eq_of_lt {n = r.head} {m = n} h.head_in,
    length-set r.buffer r.head item,
    h.room,
    h.head_in,
  )

  push-extended : (o : r.size < n) → push r item ≡ some (extended o)
  unfolding push append_item extended
  push-extended o = ground (arith, h.room, h.some_room, mod-lt (r.head + r.size) h.some_room)

  length-take_pushed : length (take n (item ∷ xs)) ≡ min n (length xs + 1)
  length-take_pushed = length-take n (item ∷ xs) ∙ ap (min n) (omega arith)

  overwritten-Holds : (e : r.size ≡ n) → Holds n (take n (item ∷ xs)) (overwritten e)
  unfolding overwritten
  overwritten-Holds e = record {
    room = length-set r.buffer r.head item ∙ h.room;
    some_room = h.some_room;
    head_in = mod-lt (r.head + 1) h.some_room;
    size_in = h.size_in;
    size = omega (arith, length-take_pushed, h.size, e);
    at = λ k x g. let (g', b) = get_elem?-take n (item ∷ xs) k x g in overwritten-at e k x b g';
  }

  extended-Holds : (o : r.size < n) → Holds n (take n (item ∷ xs)) (extended o)
  unfolding extended
  extended-Holds o = record {
    room = length-set r.buffer ((r.head + r.size) % n) item ∙ h.room;
    some_room = h.some_room;
    head_in = h.head_in;
    size_in = omega (arith, o);
    size = omega (arith, length-take_pushed, h.size, o);
    at = λ k x g. extended-at o k x (get_elem?-take n (item ∷ xs) k x g).0;
  }

  -- A ring with room for n items that is pushed an item holds that item and the items from before,
  -- less the oldest one if there is no room for it: pushing never fails and never loses another.
  pub push-Holds : (r' : HistoryRing) × (push r item ≡ some r') × Holds n (take n (item ∷ xs)) r'
  push-Holds = elim (Bool-cases (r.size == n)) [
    | inl e ↦
        let e' : r.size ≡ n = ground (arith, e) in
        (overwritten e', push-overwritten e', overwritten-Holds e')
    | inr e ↦
        let o : r.size < n = ground (arith, e, h.size_in) in
        (extended o, push-extended o, extended-Holds o)
  ]
