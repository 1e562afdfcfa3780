-- ===== src/Session/Snapshot.antt =====
-- session/store_snapshot.go: the form of a session in a snapshot of the store, and back. `none` is a
-- panic, or an error of encoding/gob. A loop that fills a new map from another, one key for each key,
-- keeps the keys as they are.
use mathlib.Core.Option
use peek_mcp.Prelude.{
  ℕ, String, Bool, true, false, not, List, [], ◌∷◌, Option, none, some, length, is_some, ltb,
  if◌then◌else◌,
}
use peek_mcp.Prelude.Assoc.{Assoc, lookup}
use peek_mcp.Prelude.Gob.{Codec}
use peek_mcp.Session.EventBuffer
use peek_mcp.Session.EventBuffer.{EventBuffer, EventBufferSnapshot}
use peek_mcp.Session.TurnBuffer
use peek_mcp.Session.TurnBuffer.{TurnBuffer, TurnBufferSnapshot}
use peek_mcp.Session.State.{
  Session, SubagentStat, UsageTarget, RequestUsage, session_total, skill_usage, subagent_usage,
}
use peek_mcp.Session.Usage.{Usage}
pub mod Restored

-- `usageTargetKind`; `unknown` is any other number.
pub data TargetKind : Type 0 where
  session_kind skill_kind subagent_kind unknown : TargetKind

-- `usageTarget`
pub record TargetKey : Type 0 where
  pub kind : TargetKind
  pub skill_index : ℕ
  pub subagent_id : String

-- `requestUsageSnapshot`
pub record RequestUsageSnapshot : Type 0 where
  pub counted : Usage
  pub targets : List TargetKey

-- `sessionSnapshot`
pub record SessionSnapshot : Type 0 where
  pub active_skills : Assoc ℕ
  pub current_prompt_id : String
  pub plan_exit_seen : Bool
  pub request_usage : Assoc RequestUsageSnapshot
  pub session : Session

-- The skill stat at a place; a pointer to another one gets the place 0 of the missing key.
abbrev pub index_of : Session → ℕ → ℕ
index_of s i = if ltb i (length s.skills) then i else 0

-- `activeSkillIndexes(session)`
unfoldable pub active_skill_indexes : Session → Assoc ℕ → Assoc ℕ
active_skill_indexes s [] = []
active_skill_indexes s ((actor, i) ∷ windows) =
    (actor, index_of s i) ∷ active_skill_indexes s windows

-- `usageTargets(session)[target]`
unfoldable pub usage_target : Session → UsageTarget → Option TargetKey
usage_target s session_total =
    some (record { kind = session_kind; skill_index = 0; subagent_id = "" })
usage_target s (skill_usage i) =
    if ltb i (length s.skills)
    then some (record { kind = skill_kind; skill_index = i; subagent_id = "" })
    else none
usage_target s (subagent_usage id) =
    if is_some (lookup id s.subagents)
    then some (record { kind = subagent_kind; skill_index = 0; subagent_id = id })
    else none

abbrev cons_key : Option TargetKey → List TargetKey → List TargetKey
cons_key none keys = keys
cons_key (some key) keys = key ∷ keys

-- The targets of a request that are totals of the session.
unfoldable pub target_keys : Session → List UsageTarget → List TargetKey
unfolding usage_target
target_keys s [] = []
target_keys s (target ∷ targets) = cons_key (usage_target s target) (target_keys s targets)

-- `requestUsageSnapshots(session)`
unfoldable pub request_usage_snapshots : Session → Assoc RequestUsage → Assoc RequestUsageSnapshot
unfolding target_keys
request_usage_snapshots s [] = []
request_usage_snapshots s ((id, usage) ∷ requests) =
    (id, record { counted = usage.counted; targets = target_keys s usage.targets })
    ∷ request_usage_snapshots s requests

-- `newSessionSnapshot(session)`
unfoldable pub new_session_snapshot : Session → SessionSnapshot
unfolding active_skill_indexes request_usage_snapshots
new_session_snapshot s = record {
  active_skills = active_skill_indexes s s.active_skills;
  current_prompt_id = s.current_prompt_id;
  plan_exit_seen = s.plan_exit_seen;
  request_usage = request_usage_snapshots s s.usage_by_request_id;
  session = s;
}

-- The codecs of the two buffers of a session, which encode themselves.
pub record SessionGob (Bytes : Type 0) : Type 0 where
  pub events : Codec Bytes EventBufferSnapshot
  pub turns : Codec Bytes TurnBufferSnapshot

module _ {Bytes : Type 0} (gob : SessionGob Bytes) where
  abbrev pub received_events : Option Bytes → Option EventBuffer
  received_events none = none
  received_events (some bytes) = EventBuffer.gob_decode gob.events EventBuffer.blank bytes

  -- An event buffer that is encoded and decoded.
  unfoldable pub sent_events : EventBuffer → Option EventBuffer
  sent_events b = received_events (EventBuffer.gob_encode gob.events b)

  abbrev pub received_turns : Option Bytes → Option TurnBuffer
  received_turns none = none
  received_turns (some bytes) = TurnBuffer.gob_decode gob.turns TurnBuffer.blank bytes

  -- A turn ring that is encoded and decoded.
  unfoldable pub sent_turns : TurnBuffer → Option TurnBuffer
  sent_turns b = received_turns (TurnBuffer.gob_encode gob.turns b)

  abbrev pub cons_stat :
      String
      → SubagentStat
      → Option TurnBuffer
      → Option (Assoc SubagentStat)
      → Option (Assoc SubagentStat)
  cons_stat id stat none stats = none
  cons_stat id stat (some turns) none = none
  cons_stat id stat (some turns) (some stats) = some ((id, record stat { turns = turns }) ∷ stats)

  unfoldable pub sent_subagents : Assoc SubagentStat → Option (Assoc SubagentStat)
  unfolding sent_turns
  sent_subagents [] = some []
  sent_subagents ((id, stat) ∷ stats) =
      cons_stat id stat (sent_turns stat.turns) (sent_subagents stats)

  abbrev pub sent_session :
      Session
      → Option EventBuffer
      → Option TurnBuffer
      → Option (Assoc SubagentStat)
      → Option Session
  sent_session s none turns subagents = none
  sent_session s (some events) none subagents = none
  sent_session s (some events) (some turns) none = none
  sent_session s (some events) (some turns) (some subagents) = some (record s {
    active_skills = [];
    current_prompt_id = "";
    plan_exit_seen = false;
    usage_by_request_id = [];
    events = events;
    subagents = subagents;
    turns_finished = turns;
  })

  -- The snapshot of a session after its encoding and decoding by encoding/gob, which carries the
  -- exported fields alone and has the buffers encode and decode themselves.
  unfoldable pub exported : SessionSnapshot → Option SessionSnapshot
  unfolding sent_events sent_turns sent_subagents
  exported snapshot =
      Option.map (λ session. record snapshot { session = session })
        (sent_session snapshot.session (sent_events snapshot.session.events)
          (sent_turns snapshot.session.turns_finished) (sent_subagents snapshot.session.subagents))

-- `t.resolve(session)`; a key that gives nil is left out by its caller.
unfoldable pub resolve : Session → TargetKey → Option (Option UsageTarget)
resolve s key = elim key.kind [
  | session_kind ↦ some (some session_total)
  | skill_kind ↦
      if ltb key.skill_index (length s.skills)
      then some (some (skill_usage key.skill_index))
      else none
  | subagent_kind ↦
      if is_some (lookup key.subagent_id s.subagents)
      then some (some (subagent_usage key.subagent_id))
      else none
  | unknown ↦ some none
]

abbrev cons_target :
    Option (Option UsageTarget) → Option (List UsageTarget) → Option (List UsageTarget)
cons_target none targets = none
cons_target (some resolved) none = none
cons_target (some none) (some targets) = some targets
cons_target (some (some target)) (some targets) = some (target ∷ targets)

-- The loop of `s.restore(session)` of a request.
unfoldable pub restore_targets : Session → List TargetKey → Option (List UsageTarget)
unfolding resolve
restore_targets s [] = some []
restore_targets s (key ∷ keys) = cons_target (resolve s key) (restore_targets s keys)

abbrev cons_entry {ℓ} : {A : Type ℓ} → String → Option A → Option (Assoc A) → Option (Assoc A)
cons_entry key none entries = none
cons_entry key (some a) none = none
cons_entry key (some a) (some entries) = some ((key, a) ∷ entries)

unfoldable pub restore_requests : Session → Assoc RequestUsageSnapshot → Option (Assoc RequestUsage)
unfolding restore_targets
restore_requests s [] = some []
restore_requests s ((id, snapshot) ∷ requests) =
    cons_entry id
      (Option.map (λ targets. record { counted = snapshot.counted; targets = targets })
        (restore_targets s snapshot.targets))
      (restore_requests s requests)

-- `session.Skills[index]` for each window; an index out of range panics.
unfoldable pub restore_windows : Session → Assoc ℕ → Option (Assoc ℕ)
restore_windows s [] = some []
restore_windows s ((actor, i) ∷ windows) =
    cons_entry actor (if ltb i (length s.skills) then some i else none) (restore_windows s windows)

abbrev restored_with :
    SessionSnapshot → Option (Assoc ℕ) → Option (Assoc RequestUsage) → Option Session
restored_with snapshot none requests = none
restored_with snapshot (some windows) none = none
restored_with snapshot (some windows) (some requests) = some (record snapshot.session {
  active_skills = windows;
  current_prompt_id = snapshot.current_prompt_id;
  plan_exit_seen = snapshot.plan_exit_seen;
  usage_by_request_id = requests;
})

-- `s.restore()` of a session.
unfoldable pub restore : SessionSnapshot → Option Session
unfolding restore_windows restore_requests
restore snapshot =
    restored_with snapshot (restore_windows snapshot.session snapshot.active_skills)
      (restore_requests snapshot.session snapshot.request_usage)
