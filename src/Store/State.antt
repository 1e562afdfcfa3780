-- ===== src/Store/State.antt =====
-- session/store.go: the state of the store, its notices, readiness and reset.
use Prim.Native.String.{len, slice, ◌++◌ as append_text}
use peek_mcp.Prelude.{
  ℕ, ◌*◌, String, Bool, true, false, not, ◌&&◌, List, [], ◌∷◌, Option, none, some, str_eq, is_empty,
  ltb, if◌then◌else◌,
}
use peek_mcp.Prelude.Assoc.{Assoc}
use peek_mcp.Events
use peek_mcp.Events.{Broker, EventType}
use peek_mcp.Session.SnapshotCache
use peek_mcp.Session.SnapshotCache.{SnapshotCache}
use peek_mcp.Session.State.{Session, agent_claude, agent_codex}

-- `files` is the file system; `has_state_dir` is `StateDir != nil`; `ready` is whether the channel
-- is closed.
pub record Store (Files : Type 0) : Type 0 where
  pub files : Files
  pub has_state_dir : Bool
  pub broker : Broker
  pub depth : ℕ
  pub enabled_agents : List String
  pub plain_title_by_id : Assoc String
  pub ready : Bool
  pub sessions : Assoc Session
  pub snapshots : SnapshotCache

module _ {Files : Type 0} where
  -- `NewStore(depth, diffCacheSessions, broker, agents...)`; the state directory is set afterwards.
  unfoldable pub new_store : Files → Bool → ℕ → ℕ → Broker → List String → Store Files
  new_store files has_state_dir depth diff_cache_sessions broker agents = record {
    files = files;
    has_state_dir = has_state_dir;
    broker = broker;
    depth = depth;
    enabled_agents = agents;
    plain_title_by_id = [];
    ready = false;
    sessions = [];
    snapshots = SnapshotCache.new diff_cache_sessions;
  }

  -- `s.publish(t, id, agent)`; `now` is `time.Now()`.
  unfoldable pub publish : ℕ → EventType → String → String → Store Files → Store Files
  publish now type id agent s = record s {
    broker =
        Events.publish s.broker (record { type = type; session_id = id; agent = agent; ts = now });
  }

  -- `s.ResolveAgent(agent)`; `none` is the error.
  unfoldable pub resolve_agent : Store Files → String → Option String
  resolve_agent s agent =
      if not (is_empty agent)
      then (if not (str_eq agent agent_claude) && not (str_eq agent agent_codex)
          then none
          else some agent)
      else elim s.enabled_agents [
        | [] ↦ none
        | agent' ∷ rest ↦ elim rest [ [] ↦ some agent' | x ∷ xs ↦ none ]
      ]

  -- `s.IsReady()`
  abbrev pub is_ready : Store Files → Bool
  is_ready s = s.ready

  -- `s.MarkReady()`; closing a closed channel panics.
  unfoldable pub mark_ready : Store Files → Option (Store Files)
  mark_ready s = if s.ready then none else some (record s { ready = true })

  -- `s.Reset()`
  unfoldable pub reset : Store Files → Store Files
  reset s = record s {
    plain_title_by_id = [];
    ready = false;
    sessions = [];
    snapshots = SnapshotCache.clear s.snapshots;
  }

-- state.Truncate(content), in bytes; a cut inside a character keeps the whole characters.
abbrev pub max_snapshot_bytes : ℕ
max_snapshot_bytes = 5 * 1024 * 1024

unfoldable pub truncate : String → String
truncate content =
    if ltb max_snapshot_bytes (len content)
    then append_text (slice content 0 max_snapshot_bytes) "\n[peek: snapshot truncated at 5 MB]\n"
    else content
