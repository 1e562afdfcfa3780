-- ===== src/Watcher/Reader.antt =====
-- watcher/watcher.go: the reading of transcripts. `none` is a panic. The clock stands still during a
-- call, at `now`.
use mathlib.Core.Option
use peek_mcp.Prelude.{
  ℕ, ◌+◌, String, not, List, Option, none, some, is_empty, is_some, if◌then◌else◌,
}
use peek_mcp.Prelude.Assoc.{lookup, insert}
use peek_mcp.Session.Meta.{Meta}
use peek_mcp.Session.Turn
use peek_mcp.Session.Turn.{Turn, blank_turn}
use peek_mcp.Store.Env.{Env}
use peek_mcp.Store.State.{Store}
use peek_mcp.Store.AddTurn.{add_turn_by_session_id}
use peek_mcp.Watcher.Lines.{read_from}
use peek_mcp.Watcher.Roots.{legacy_project_from_cwd}
use peek_mcp.Watcher.State.{LineParser, WatchedFile, Watcher, found_or}
use peek_mcp.Watcher.Disk.{Disk}

module _ (env : Env) (P : LineParser) where
  -- `w.stampProject(turn)` of a turn with the metadata.
  unfoldable pub stamp_project : Watcher env.Files P → Meta → Meta
  stamp_project w meta =
      if not (is_empty w.project)
      then record meta { project = w.project }
      else record meta { project = legacy_project_from_cwd w.home meta.cwd }

  -- The turn that enters the store: with its file and its project.
  abbrev pub stamped : Watcher env.Files P → String → Turn → Meta → Turn
  unfolding stamp_project
  stamped w path turn meta = record turn { file_path = path; meta = some (stamp_project w meta) }

  -- What `readNewLines` does with the result of `ParseLine`.
  unfoldable pub take_turn :
      ℕ → Watcher env.Files P → String → Store env.Files → Option Turn → Option (Store env.Files)
  unfolding stamp_project
  take_turn now w path store parsed =
      if is_some (Turn.validate parsed) then some store else elim parsed [
        | none ↦ none
        | some turn ↦ elim turn.meta [
          | none ↦ none
          | some meta ↦
              add_turn_by_session_id env now store meta.session_id w.agent
                (stamped w path turn meta)
        ]
      ]

  -- A line of `readNewLines`, for the parser and the store before it. A call on a parser that is nil
  -- panics.
  unfoldable pub read_line :
      ℕ
      → Watcher env.Files P
      → String
      → Option P.Carried × Store env.Files
      → List ℕ
      → Option (Option P.Carried × Store env.Files)
  unfolding take_turn
  read_line now w path (none, store) line = none
  read_line now w path (some carried, store) line =
      let (carried', parsed) = P.parse_line carried line in
      Option.map (λ store'. (some carried', store')) (take_turn now w path store parsed)

  -- `w.files[path]`, or a file with a fresh parser.
  abbrev pub transcript_of : Watcher env.Files P → String → WatchedFile P
  transcript_of w path =
      found_or (lookup path w.files) (record { offset = 0; parser = some P.fresh })

  abbrev pub keep_read :
      Watcher env.Files P
      → String
      → ℕ
      → Option (ℕ × (Option P.Carried × Store env.Files))
      → Option (Watcher env.Files P)
  keep_read w path offset none = none
  keep_read w path offset (some (consumed, (carried, store))) = some (record w {
    files = insert path (record { offset = offset + consumed; parser = carried }) w.files;
    store = store;
  })

  -- `w.readNewLines(path)`; a file that cannot be read changes nothing.
  unfoldable pub read_new_lines :
      Disk → ℕ → Watcher env.Files P → String → Option (Watcher env.Files P)
  unfolding read_line
  read_new_lines disk now w path = elim (disk.content path) [
    | none ↦ some w
    | some content ↦
        let watched = transcript_of w path in
        keep_read w path watched.offset
          (read_from (read_line now w path) watched.offset (watched.parser, w.store) content)
  ]
