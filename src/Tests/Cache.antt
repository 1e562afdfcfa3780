-- ===== src/Tests/Cache.antt =====
-- The snapshot cache on concrete data.
use peek_mcp.Prelude.{◌≡◌, refl, ◌∷◌, [], some, arith, eq_iff}
use peek_mcp.Prelude.Assoc.{lookup}
use peek_mcp.Session.SnapshotCache.{SnapshotCache, get, put}
use peek_mcp.Session.SnapshotCache.Recency.{is_in, IsValid, put-IsValid, get-put}

abbrev one_entry : SnapshotCache
one_entry = record {
  capacity = 1;
  content = ("s1", "diff 1") ∷ [];
  entries = ("s1", "s1") ∷ [];
  order = "s1" ∷ [];
}

one_entry-IsValid : IsValid one_entry
unfolding lookup is_in
one_entry-IsValid = record {
  distinct = (refl, tt);
  known = λ x. ground (arith, eq_iff "s1" x);
  fits = omega arith;
}

put-IsValid_example : IsValid (put one_entry "s2" "diff 2")
put-IsValid_example = put-IsValid one_entry one_entry-IsValid "s2" "diff 2" (omega arith)

get-put_example : (get (put one_entry "s2" "diff 2") "s2").0 ≡ some "diff 2"
get-put_example = get-put one_entry one_entry-IsValid "s2" "diff 2" (omega arith) (omega arith)
