-- ===== src/Watcher/Roots.antt =====
-- watcher/watcher.go: what the path of a file says of it.
use Prim.Native.Char.{code}
use Prim.Native.String.{◌++◌ as append_text}
use peek_mcp.Prelude.{
  ℕ, zero, suc, ◌+◌, ◌<◌, ◌≡◌, ◌⊎◌, refl, String, Bool, true, false, not, ◌&&◌, ◌||◌, Option, none,
  some, arith, inl, inr, str_eq, is_empty, eq_iff, ◌==◌, Bool-cases, if◌then◌else◌,
}
use peek_mcp.Prelude.Text.{has_prefix, has_suffix, trim_suffix, drop_prefix, rune_count}
use peek_mcp.Prelude.Paths.{base, dir, dir-steps}

abbrev pub jsonl_suffix : String
jsonl_suffix = ".jsonl"

abbrev pub agent_file_prefix : String
agent_file_prefix = "agent-"

abbrev pub meta_json_suffix : String
meta_json_suffix = ".meta.json"

abbrev pub subagents_dir_name : String
subagents_dir_name = "subagents"

abbrev pub journal_file_name : String
journal_file_name = "journal.jsonl"

-- The loop of `subagentsRootDir`; `none` is the end of the fuel.
unfoldable pub root_from : ℕ → String → Option String
root_from zero d = none
root_from (suc fuel) d =
    let rest = root_from fuel (dir d) in
    if str_eq (dir d) d
    then some ""
    else if str_eq (base d) subagents_dir_name
    then some (dir d)
    else rest

unfoldable pub root_search : String → Option String
unfolding root_from
root_search path = root_from (suc (suc (rune_count (dir path)))) (dir path)

-- `subagentsRootDir(path)`; the search always ends.
unfoldable pub subagents_root_dir : String → String
unfolding root_search
subagents_root_dir path = elim (root_search path) [ none ↦ "" | some root ↦ root ]

-- `isWorkflowJournalPath(path)`
unfoldable pub is_workflow_journal_path : String → Bool
unfolding subagents_root_dir
is_workflow_journal_path path =
    str_eq (base path) journal_file_name && not (is_empty (subagents_root_dir path))

-- `isSubagentMetaPath(path)`
unfoldable pub is_subagent_meta_path : String → Bool
unfolding subagents_root_dir
is_subagent_meta_path path =
    if not (has_suffix path meta_json_suffix)
    then false
    else if not (has_prefix (base path) agent_file_prefix)
    then false
    else not (is_empty (subagents_root_dir path))

-- `isSubagentPath(path)`
abbrev pub is_subagent_path : String → Bool
unfolding subagents_root_dir
is_subagent_path path = not (is_empty (subagents_root_dir path))

-- `rest` up to its first slash.
unfoldable pub first_element : String → String
first_element String.[] = String.[]
first_element (String.◌∷◌ c s) =
    let rest = first_element s in if code c == 47 then String.[] else String.◌∷◌ c rest

-- `legacyProjectFromCwd(cwd)`; `home` is `userHome`.
unfoldable pub legacy_project_from_cwd : String → String → String
unfolding first_element
legacy_project_from_cwd home cwd =
    if is_empty home || is_empty cwd
    then ""
    else (let prefix = append_text (trim_suffix home "/") "/Claude_" in
        if not (has_prefix cwd prefix) then "" else first_element (drop_prefix cwd prefix))

-- The directories that a search from a directory visits.
pub data Above (start : String) : String → Type 0 where
  here : Above start start
  up : (d : String) → Above start d → Above start (dir d)

-- What a search may find: nothing, or the parent of a directory on its way with the name.
abbrev pub IsRoot : String → String → Type 0
IsRoot start root =
    (root ≡ "")
    ⊎ ((d : String) × Above start d × (str_eq (base d) subagents_dir_name ≡ true) × (root ≡ dir d))

still_deep :
    {fuel : ℕ} (d : String)
    → str_eq (dir d) d ≡ false
    → (dir d ≡ d) ⊎ (rune_count d + 1 < fuel)
    → rune_count d + 1 < fuel
still_deep d below (inl top) = absurd (ground (arith, (eq_iff (dir d) d).1 top))
still_deep d below (inr deep) = deep

-- One step up keeps enough fuel.
enough-step :
    {fuel : ℕ} (d : String)
    → rune_count d + 1 < suc fuel
    → (dir (dir d) ≡ dir d) ⊎ (rune_count (dir d) + 1 < fuel)
enough-step d deep = elim (dir-steps d) [ inl shorter ↦ inr (omega arith) | inr top ↦ inl top ]

root_from-IsRoot :
    (start : String) (fuel : ℕ) (d : String)
    → Above start d
    → (dir d ≡ d) ⊎ (rune_count d + 1 < fuel)
    → 0 < fuel
    → (root : String) × (root_from fuel d ≡ some root) × IsRoot start root
unfolding root_from
root_from-IsRoot start zero d above enough some_fuel = absurd (omega arith)
root_from-IsRoot start (suc fuel) d above enough some_fuel = elim (Bool-cases (str_eq (dir d) d)) [
  | inl top ↦ ("", rw top refl, inl refl)
  | inr below ↦ elim (Bool-cases (str_eq (base d) subagents_dir_name)) [
    | inl named ↦ (dir d, rw (below, named) refl, inr (d, above, named, refl))
    | inr other ↦
        let deep : rune_count d + 1 < suc fuel = still_deep d below enough in
        let (root, found, is_root) =
          root_from-IsRoot start fuel (dir d) (up d above) (enough-step d deep) (omega arith) in
        (root, rw (below, other) found, is_root)
  ]
]

-- The search for the root of a path ends, and gives the parent of a directory named "subagents"
-- that the search goes through, or nothing.
pub root_search-ends :
    (path : String) → (root : String) × (root_search path ≡ some root) × IsRoot (dir path) root
unfolding root_search
root_search-ends path =
    root_from-IsRoot (dir path) (suc (suc (rune_count (dir path)))) (dir path) here
      (inr (omega arith)) (omega arith)
