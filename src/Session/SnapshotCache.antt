-- ===== src/Session/SnapshotCache.antt =====
-- session/snapshot_cache.go: the least recently used cache of diff snapshots. The locks are not
-- modelled: each call is one step. A list element is known by the id that it holds, since
-- `PushFront(id)` under the key `id` is the only way to make one.
pub mod Recency
use mathlib.Core.Option
use peek_mcp.Prelude.{
  ℕ, String, ◌||◌, List, [], ◌∷◌, Option, none, some, length, last, str_eq, ◌==◌, if◌then◌else◌,
}
use peek_mcp.Prelude.Words.{is_negative, lt64}
use peek_mcp.Prelude.Assoc.{Assoc, lookup, insert, erase}

pub record SnapshotCache : Type 0 where
  pub capacity : ℕ
  pub content : Assoc String
  pub entries : Assoc String
  pub order : List String

-- `newSnapshotCache(capacity)`
unfoldable pub new : ℕ → SnapshotCache
new capacity = record { capacity = capacity; content = []; entries = []; order = [] }

-- `c.clear()`
unfoldable pub clear : SnapshotCache → SnapshotCache
clear c = record c { content = []; entries = []; order = [] }

-- `list.Remove(element)`
unfoldable pub remove : String → List String → List String
remove element [] = []
remove element (x ∷ xs) = if str_eq x element then xs else x ∷ remove element xs

-- `list.MoveToFront(element)`
abbrev pub move_to_front : String → List String → List String
move_to_front element order = element ∷ remove element order

-- `c.get(id)`; a missing key of a map of texts reads as "".
unfoldable pub get : SnapshotCache → String → Option String × SnapshotCache
get c id = elim (lookup id c.entries) [
  | none ↦ (none, c)
  | some element ↦ (
    some (Option.get_or (lookup id c.content) ""),
    record c { order = move_to_front element c.order },
  )
]

-- The removal of the oldest element.
unfoldable pub evict : SnapshotCache → Option String → SnapshotCache
unfolding remove
evict c none = c
evict c (some oldest) = record c {
  order = remove oldest c.order;
  entries = erase oldest c.entries;
  content = erase oldest c.content;
}

-- `c.put(id, snapshot)`
unfoldable pub put : SnapshotCache → String → String → SnapshotCache
unfolding evict is_negative lt64
put c id snapshot =
    if is_negative c.capacity || c.capacity == 0 then c else elim (lookup id c.entries) [
      | some element ↦ record c {
        order = move_to_front element c.order;
        content = insert id snapshot c.content;
      }
      | none ↦
          let c' = record c {
            entries = insert id id c.entries;
            order = id ∷ c.order;
            content = insert id snapshot c.content;
          } in
          if lt64 c'.capacity (length c'.order) then evict c' (last c'.order) else c'
    ]
