-- ===== src/Watcher/Batch.antt =====
-- watcher/watcher.go: a burst of notices of the file system, and what it makes the watcher read.

use peek_mcp.Prelude.{
  ℕ, String, Bool, true, false, not, ◌&&◌, ◌||◌, List, [], ◌∷◌, Option, none, some, str_eq, is_some,
  if◌then◌else◌,
}
use peek_mcp.Prelude.Text.{has_suffix}
use peek_mcp.Store.Env.{Env}
use peek_mcp.Watcher.Roots.{jsonl_suffix, is_workflow_journal_path, is_subagent_meta_path}
use peek_mcp.Watcher.State.{LineParser, Watcher}
use peek_mcp.Watcher.Disk.{Disk}
use peek_mcp.Watcher.Reader.{read_new_lines}
use peek_mcp.Watcher.Subagents.{read_journal, read_subagent_meta}
use mathlib.Core.List.{◌++◌}

-- The operations of an `fsnotify.Event` that the watcher asks for.
pub record Notice : Type 0 where
  pub name : String
  pub has_create : Bool
  pub has_write : Bool

-- `eventBatch`; `dirty` has each path once.
pub record EventBatch : Type 0 where
  pub created : List String
  pub dirty : List String

-- `newEventBatch()`
abbrev pub new_event_batch : EventBatch
new_event_batch = record { created = []; dirty = [] }

-- `m[path] = struct{}{}`
unfoldable pub add_path : String → List String → List String
add_path path [] = path ∷ []
add_path path (q ∷ paths) = if str_eq q path then q ∷ paths else q ∷ add_path path paths

-- `b.add(event)`
unfoldable pub add : EventBatch → Notice → EventBatch
unfolding add_path
add b event =
    if event.has_create
    then record b { created = b.created ++ event.name ∷ [] }
    else if event.has_write
    then record b { dirty = add_path event.name b.dirty }
    else b

-- `b.drain(events)` of the notices that wait in the channel.
unfoldable pub drain : EventBatch → List Notice → EventBatch
unfolding add
drain b [] = b
drain b (event ∷ events) = drain (add b event) events

-- The first loop of `processBatch`: the paths that it gives to `walkAndWatch`, and the dirty paths.
unfoldable pub sort_created : Disk → List String → List String → List String × List String
unfolding add_path
sort_created disk [] dirty = ([], dirty)
sort_created disk (path ∷ created) dirty =
    let gone = not (is_some (disk.stat path)) in
    let (dirs, dirty') =
      sort_created disk created (if gone || disk.is_dir path then dirty else add_path path dirty) in
    (if not gone && disk.is_dir path then path ∷ dirs else dirs, dirty')

module _ (env : Env) (P : LineParser) where
  -- `w.isTranscriptPath(path)`
  unfoldable pub is_transcript_path : Watcher env.Files P → String → Bool
  is_transcript_path w path =
      if not (has_suffix path jsonl_suffix)
      then false
      else elim w.transcript_path_ok [ none ↦ true | some ok ↦ ok path ]

  abbrev pub read_if :
      Bool
      → (Watcher env.Files P → Option (Watcher env.Files P))
      → Watcher env.Files P
      → Option (Watcher env.Files P)
  read_if false read w = some w
  read_if true read w = read w

  -- A dirty path of `processBatch`.
  unfoldable pub read_dirty : Disk → ℕ → Watcher env.Files P → String → Option (Watcher env.Files P)
  unfolding read_new_lines read_journal read_subagent_meta is_transcript_path
  read_dirty disk now w path =
      if is_workflow_journal_path path
      then read_journal env P disk now w path
      else elim (read_if (is_transcript_path w path) (λ v. read_new_lines env P disk now v path)
          w) [
            | none ↦ none
            | some w' ↦
                read_if (is_subagent_meta_path path) (λ v. read_subagent_meta env P disk now v path)
                  w'
          ]

  -- The second loop of `processBatch`, over the dirty paths in the order of an iteration.
  unfoldable pub read_dirty_paths :
      Disk → ℕ → Watcher env.Files P → List String → Option (Watcher env.Files P)
  unfolding read_dirty
  read_dirty_paths disk now w [] = some w
  read_dirty_paths disk now w (path ∷ paths) = elim (read_dirty disk now w path) [
    | none ↦ none
    | some w' ↦ read_dirty_paths disk now w' paths
  ]
