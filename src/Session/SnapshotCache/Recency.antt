-- ===== src/Session/SnapshotCache/Recency.antt =====
-- session/snapshot_cache.go: the order of the cache, and its reads after its writes.

use peek_mcp.Prelude.{
  ◌+◌, ◌≤◌, ◌<◌, ◌≡◌, refl, ◌∙◌, String, Bool, true, false, ◌||◌, List, [], ◌∷◌, none, some, length,
  last, arith, str_eq, eq_iff, eq_refl, ◌==◌, if◌then◌else◌, Bool-cases, Option-cases, inl, inr,
}
use peek_mcp.Prelude.Words.{is_negative, lt64}
use peek_mcp.Prelude.Assoc.{Assoc, lookup, insert, lookup-insert, lookup-erase}
use peek_mcp.Session.SnapshotCache.{SnapshotCache, remove, move_to_front, get, evict, put}

unfoldable pub is_in : String → List String → Bool
is_in x [] = false
is_in x (y ∷ ys) = let rest = is_in x ys in if str_eq y x then true else rest

abbrev pub IsDistinct : List String → Type 0
IsDistinct [] = Unit
IsDistinct (x ∷ xs) = (is_in x xs ≡ false) × IsDistinct xs

-- The order has each entry once and nothing else, and no more than the capacity.
pub record IsValid (c : SnapshotCache) : Type 0 where
  pub distinct : IsDistinct c.order
  pub known : (x : String) → lookup x c.entries ≡ (if is_in x c.order then some x else none)
  pub fits : length c.order ≤ c.capacity

is_in-remove :
    (x y : String) (xs : List String)
    → IsDistinct xs
    → is_in x (remove y xs) ≡ (if str_eq y x then false else is_in x xs)
unfolding is_in remove
is_in-remove x y [] d = ground arith
is_in-remove x y (z ∷ xs) d =
    ground (arith, is_in-remove x y xs d.1, d.0, eq_iff y x, eq_iff z x, eq_iff z y)

IsDistinct-remove : (y : String) (xs : List String) → IsDistinct xs → IsDistinct (remove y xs)
unfolding remove
IsDistinct-remove y [] d = tt
IsDistinct-remove y (z ∷ xs) d = elim (Bool-cases (str_eq z y)) [
  | inl e ↦ rw e d.1
  | inr e ↦ rw e (ground (arith, is_in-remove z y xs d.1, d.0), IsDistinct-remove y xs d.1)
]

length-remove :
    (y : String) (xs : List String) → is_in y xs ≡ true → length (remove y xs) + 1 ≡ length xs
unfolding is_in remove
length-remove y [] h = absurd (ground (arith, h))
length-remove y (z ∷ xs) h = elim (Bool-cases (str_eq z y)) [
  | inl e ↦ rw e (omega arith)
  | inr e ↦ rw e (omega (arith, length-remove y xs (rw e at h)))
]

is_in-last :
    (x : String) (xs : List String) {y : String} → last (x ∷ xs) ≡ some y → is_in y (x ∷ xs) ≡ true
unfolding is_in
is_in-last x [] {y} e = ground (arith, e, eq_iff x y)
is_in-last x (z ∷ xs) {y} e = ground (arith, is_in-last z xs {y = y} e)

module _ (c : SnapshotCache) (v : IsValid c) where
  moved-IsValid :
      (id : String) (content : Assoc String)
      → is_in id c.order ≡ true
      → IsValid (record c { order = move_to_front id c.order; content = content })
  unfolding is_in
  moved-IsValid id content h = record {
    distinct = (
      ground (arith, is_in-remove id id c.order v.distinct, eq_refl id),
      IsDistinct-remove id c.order v.distinct,
    );
    known = λ x. ground (arith, is_in-remove x id c.order v.distinct, v.known x, eq_iff id x, h);
    fits = omega (arith, length-remove id c.order h, v.fits);
  }

  element_of :
      (id : String) {element : String}
      → lookup id c.entries ≡ some element
      → (element ≡ id) × (is_in id c.order ≡ true)
  element_of id {element} e = elim (Bool-cases (is_in id c.order)) [
    | inl h ↦ (ground (arith, v.known id, e, h), h)
    | inr h ↦ absurd (ground (arith, v.known id, e, h))
  ]

  -- A read keeps the cache valid.
  pub get-IsValid : (id : String) → IsValid (get c id).1
  unfolding get
  get-IsValid id = elim (Option-cases (lookup id c.entries)) [
    | inl e ↦ rw (e, get) v
    | inr (element, e) ↦
        let (same, h) = element_of id e in rw (e, get, same) (moved-IsValid id c.content h)
  ]

  put_new :
      (id snapshot : String)
      → lookup id c.entries ≡ none
      → let c' = record c {
        entries = insert id id c.entries;
        order = id ∷ c.order;
        content = insert id snapshot c.content;
      } in
        IsDistinct c'.order
        × ((x : String) → lookup x c'.entries ≡ (if is_in x c'.order then some x else none))
  unfolding is_in
  put_new id snapshot e = (
    (ground (arith, v.known id, e), v.distinct),
    λ x. ground (arith, lookup-insert id x id c.entries, v.known x, eq_iff id x),
  )

evict-IsValid :
    (c : SnapshotCache) (oldest : String)
    → IsDistinct c.order
    → ((x : String) → lookup x c.entries ≡ (if is_in x c.order then some x else none))
    → length c.order ≤ c.capacity + 1
    → is_in oldest c.order ≡ true
    → IsValid (evict c (some oldest))
unfolding evict
evict-IsValid c oldest distinct known few h = record {
  distinct = IsDistinct-remove oldest c.order distinct;
  known = λ x.
      ground
        (arith, is_in-remove x oldest c.order distinct, known x, lookup-erase oldest x c.entries);
  fits = omega (arith, length-remove oldest c.order h, few);
}

last-some : (x : String) (xs : List String) → (y : String) × (last (x ∷ xs) ≡ some y)
last-some x [] = (x, refl)
last-some x (z ∷ xs) = last-some z xs

last_in :
    (x : String) (xs : List String) {y : String}
    → 0 < length xs
    → last (x ∷ xs) ≡ some y
    → is_in y xs ≡ true
last_in x [] h l = absurd (omega (arith, h))
last_in x (z ∷ xs) h l = is_in-last z xs l

get-some :
    (c : SnapshotCache) (id : String) {element snapshot : String}
    → lookup id c.entries ≡ some element
    → lookup id c.content ≡ some snapshot
    → (get c id).0 ≡ some snapshot
unfolding get
get-some c id e f = rw (e, f, get) refl

-- Where an entry is evicted for a new one, it is an older entry.
last_older :
    (c : SnapshotCache) (id : String) {oldest : String}
    → IsValid c
    → lookup id c.entries ≡ none
    → 0 < length c.order
    → last (id ∷ c.order) ≡ some oldest
    → str_eq oldest id ≡ false
last_older c id {oldest} v e filled l =
    ground (arith, v.known id, v.known oldest, e, last_in id c.order filled l, eq_iff oldest id)

module _ (c : SnapshotCache) (v : IsValid c) (id snapshot : String)
    (signed : c.capacity + 1 < 9223372036854775808) where
  -- A write to a valid cache, whose capacity is below the largest int, leaves it valid, the eviction of
  -- the oldest entry included.
  pub put-IsValid : IsValid (put c id snapshot)
  unfolding put lt64
  put-IsValid = elim (Bool-cases (is_negative c.capacity || c.capacity == 0)) [
    | inl n ↦ rw (n, put) v
    | inr n ↦ elim (Option-cases (lookup id c.entries)) [
      | inr (element, e) ↦
          let (same, h) = element_of c v id e in
          rw (n, e, put, same) (moved-IsValid c v id (insert id snapshot c.content) h)
      | inl e ↦
          let (distinct, known) = put_new c v id snapshot e in
          let added = record c {
            entries = insert id id c.entries;
            order = id ∷ c.order;
            content = insert id snapshot c.content;
          } in
          elim (Bool-cases (lt64 c.capacity (length (id ∷ c.order)))) [
            | inr room ↦
                rw (n, e, room, put)
                  (record {
                    distinct = distinct;
                    known = known;
                    fits = ground (arith, room, signed, v.fits);
                  })
            | inl full ↦
                let (oldest, l) = last-some id c.order in
                rw (n, e, full, l, put)
                  (evict-IsValid added oldest distinct known (omega (arith, v.fits))
                    (is_in-last id c.order l))
          ]
    ]
  ]

  -- In a valid cache, whose capacity is positive and below the largest int, a snapshot that was put is
  -- what is read.
  pub get-put : 0 < c.capacity → (get (put c id snapshot) id).0 ≡ some snapshot
  unfolding put get evict lt64 is_negative
  get-put roomy =
      let n : (is_negative c.capacity || c.capacity == 0) ≡ false = ground (arith, roomy, signed) in
      let content = insert id snapshot c.content in
      let stored : lookup id content ≡ some snapshot =
        lookup-insert id id snapshot c.content ∙ rw eq_refl refl in
      let entered : lookup id (insert id id c.entries) ≡ some id =
        lookup-insert id id id c.entries ∙ rw eq_refl refl in
      elim (Option-cases (lookup id c.entries)) [
        | inr (element, e) ↦
            rw (n, e, put)
              (get-some (record c { order = move_to_front element c.order; content = content }) id e
                stored)
        | inl e ↦
            let added = record c {
              entries = insert id id c.entries;
              order = id ∷ c.order;
              content = content;
            } in
            elim (Bool-cases (lt64 c.capacity (length (id ∷ c.order)))) [
              | inr room ↦ rw (n, e, room, put) (get-some added id entered stored)
              | inl full ↦
                  let (oldest, l) = last-some id c.order in
                  let apart = last_older c id v e (ground (arith, full, roomy, signed, v.fits)) l in
                  rw (n, e, full, l, put)
                    (get-some (evict added (some oldest)) id {element = id} {snapshot = snapshot}
                      (lookup-erase oldest id (insert id id c.entries) ∙ rw apart entered)
                      (lookup-erase oldest id content ∙ rw apart stored))
            ]
      ]
