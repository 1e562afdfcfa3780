-- ===== src/Watcher/State.antt =====
-- watcher/parser.go and watcher/watcher.go: parsers, the state of a watcher, and what it keeps of
-- its files across a restart.
use Prim.Native.String.{◌++◌ as append_text}
use mathlib.Core.Option
use peek_mcp.Prelude.{ℕ, String, Bool, not, List, [], ◌∷◌, Option, none, some, if◌then◌else◌}
use peek_mcp.Prelude.Assoc.{Assoc, insert}
use peek_mcp.Prelude.Text.{has_prefix}
use peek_mcp.Session.Turn.{Turn, is_filled}
use peek_mcp.Store.State.{Store}

-- The interface `Parser`: what a parser carries, a fresh one, and its methods. `none` is nil of
-- `parse_line` and an error of the others; `restore` is of a fresh parser.
pub record LineParser : Type 1 where
  pub Carried : Type 0
  pub fresh : Carried
  pub parse_line : Carried → List ℕ → Carried × Option Turn
  pub state : Carried → Option (List ℕ)
  pub restore : List ℕ → Option Carried

-- session.FileState
pub record FileState : Type 0 where
  pub offset : ℕ
  pub parser : List ℕ

-- `parser` is none for a file that no parser reads.
pub record WatchedFile (P : LineParser) : Type 0 where
  pub offset : ℕ
  pub parser : Option P.Carried

-- `home` is `userHome`, `transcript_path_ok` a function that is not nil. `horizon`, which only the
-- walk of a directory reads, and `loaded` are left out.
pub record Watcher (Files : Type 0) (P : LineParser) : Type 0 where
  pub agent : String
  pub agent_dir : String
  pub files : Assoc (WatchedFile P)
  pub home : String
  pub project : String
  pub store : Store Files
  pub transcript_path_ok : Option (String → Bool)

module _ (P : LineParser) where
  -- `New(agent, agentDir, horizon, newParser, store)`
  abbrev pub new_watcher :
      {Files : Type 0} → String → String → String → Store Files → Watcher Files P
  new_watcher home agent agent_dir store = record {
    agent = agent;
    agent_dir = agent_dir;
    files = [];
    home = home;
    project = "";
    store = store;
    transcript_path_ok = none;
  }

  abbrev pub state_of : ℕ → Option P.Carried → Option FileState
  state_of offset none = some (record { offset = offset; parser = [] })
  state_of offset (some carried) =
      Option.map (λ bytes. record { offset = offset; parser = bytes }) (P.state carried)

  -- `f.state()`; `none` is its error.
  unfoldable pub file_state : WatchedFile P → Option FileState
  file_state f = state_of f.offset f.parser

  abbrev pub add_state :
      String → Option FileState → Option (Assoc FileState) → Option (Assoc FileState)
  add_state path none states = none
  add_state path (some state) none = none
  add_state path (some state) (some states) = some (insert path state states)

  -- `w.FileStates()`, the files from the last one on.
  unfoldable pub file_states : Assoc (WatchedFile P) → Option (Assoc FileState)
  unfolding file_state
  file_states [] = some []
  file_states ((path, watched) ∷ files) = add_state path (file_state watched) (file_states files)

  -- `w.watchedFromState(state)`; `none` is its error.
  unfoldable pub watched_from_state : FileState → Option (WatchedFile P)
  watched_from_state state =
      if not (is_filled state.parser)
      then some (record { offset = state.offset; parser = none })
      else Option.map (λ carried. record { offset = state.offset; parser = some carried })
          (P.restore state.parser)

  abbrev pub add_watched :
      String
      → Option (WatchedFile P)
      → Option (Assoc (WatchedFile P))
      → Option (Assoc (WatchedFile P))
  add_watched path none files = none
  add_watched path (some watched) none = none
  add_watched path (some watched) (some files) = some (insert path watched files)

  -- `w.RestoreFiles(states)`, the states from the last one on: the files afterwards, unless a parser
  -- cannot be restored.
  unfoldable pub restore_files :
      String → Assoc (WatchedFile P) → Assoc FileState → Option (Assoc (WatchedFile P))
  unfolding watched_from_state
  restore_files agent_dir files [] = some files
  restore_files agent_dir files ((path, state) ∷ states) =
      let rest = restore_files agent_dir files states in
      if not (has_prefix path (append_text agent_dir "/"))
      then rest
      else add_watched path (watched_from_state state) rest

-- `watched, ok := w.files[path]`, with the file of `!ok`.
abbrev pub found_or : {P : LineParser} → Option (WatchedFile P) → WatchedFile P → WatchedFile P
found_or none fresh = fresh
found_or (some watched) fresh = watched
