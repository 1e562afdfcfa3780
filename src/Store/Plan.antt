-- ===== src/Store/Plan.antt =====
-- session/store.go: plan contents, their revisions, and the versions on disk.
pub mod Bound
pub mod Content
use Prim.Native.String.{len, slice, ◌++◌ as append_text}
use peek_mcp.Prelude.{
  ℕ, ◌*◌, String, Bool, true, false, not, ◌&&◌, ◌||◌, List, [], ◌∷◌, ◌++◌, Option, none, some,
  length, last, str_eq, is_empty, ltb, ◌==◌, if◌then◌else◌,
}
use peek_mcp.Prelude.Words.{add64, lt64}
use peek_mcp.Prelude.Assoc.{Assoc}
use peek_mcp.Events.{plan_updated}
use peek_mcp.Session.Event.{Event, plan_revised, blank_event}
use peek_mcp.Session.Turn.{Turn}
use peek_mcp.Session.Meta.{Meta}
use peek_mcp.Session.State.{Session, PlanRevision, agent_claude}
use peek_mcp.Session.Queries.{is_alteration_phase, is_plan_replay}
use peek_mcp.Store.Env.{Env, PlanVersion}
use peek_mcp.Store.State.{Store, publish}
use peek_mcp.Store.Actors.{append_event}

abbrev pub max_plan_revisions : ℕ
max_plan_revisions = 50

abbrev pub max_revision_diff_bytes : ℕ
max_revision_diff_bytes = 64 * 1024

-- `nextPlanIndex(revisions)`
unfoldable pub next_plan_index : List PlanRevision → ℕ
unfolding add64
next_plan_index revisions = elim (last revisions) [ none ↦ 0 | some latest ↦ add64 latest.index 1 ]

-- A session that its store keeps in step with the disk.
abbrev pub is_persisted : {Files : Type 0} → Store Files → Session → Bool
is_persisted s session = s.has_state_dir && str_eq session.agent agent_claude

-- The event of a revision.
abbrev pub revised_event : PlanRevision → Event
revised_event revision = record (blank_event plan_revised revision.timestamp) {
  plan = some (record { content = ""; revision = revision.index });
}

-- The revision that `appendPlanVersion` makes of a version.
abbrev pub revision_of : PlanVersion → PlanRevision
revision_of version = record {
  content = if version.index == 0 then version.content else "";
  diff = if version.index == 0 then "" else version.content;
  index = version.index;
  is_alteration = version.is_alteration;
  timestamp = version.mod_time;
}

unfoldable pub count_alteration : Bool → Session → Session
unfolding add64
count_alteration false session = session
count_alteration true session =
    let c = session.counters in
    record session { counters = record c { plan_alterations = add64 c.plan_alterations 1 } }

-- `s.appendPlanVersion(session, version)`
unfoldable pub append_plan_version : Session → PlanVersion → Session
unfolding count_alteration
append_plan_version session version =
    count_alteration version.is_alteration
      (record session { plan_revisions = session.plan_revisions ++ revision_of version ∷ [] })

unfoldable pub append_plan_versions : Session → List PlanVersion → Session
unfolding append_plan_version
append_plan_versions session [] = session
append_plan_versions session (version ∷ versions) =
    append_plan_versions (append_plan_version session version) versions

-- One round of the loop of `adoptPlanVersions`.
unfoldable pub adopt_plan_version : ℕ → Session → PlanVersion → Session
unfolding append_plan_version lt64
adopt_plan_version next session version =
    if lt64 version.index next
    then session
    else if version.index == 0
    then append_plan_version session version
    else append_event (append_plan_version session version) (revised_event (revision_of version))

unfoldable pub adopt_all : ℕ → Session → List PlanVersion → Session
unfolding adopt_plan_version
adopt_all next session [] = session
adopt_all next session (version ∷ versions) =
    adopt_all next (adopt_plan_version next session version) versions

module _ (env : Env) where
  -- `unifiedDiff(current, previous)`
  unfoldable pub unified_diff : String → String → String
  unified_diff current previous = elim (env.unified_diff_string previous current) [
    | none ↦ ""
    | some text ↦
        if ltb max_revision_diff_bytes (len text)
        then append_text (slice text 0 max_revision_diff_bytes)
            "\n[peek: revision diff truncated at 64 KB]\n"
        else text
  ]

  -- `s.adoptPlanVersions(agent, id, session)`
  unfoldable pub adopt_plan_versions : Store env.Files → Session → Session
  unfolding adopt_all next_plan_index
  adopt_plan_versions s session =
      adopt_all (next_plan_index session.plan_revisions) session
        (env.read_plan_versions s.files session.agent session.meta.session_id)

  -- `s.hydratePlanState(agent, id, session)`
  unfoldable pub hydrate_plan_state : Store env.Files → Session → Session
  unfolding append_plan_versions
  hydrate_plan_state s session =
      let id = session.meta.session_id in
      elim (env.read_plan_versions s.files session.agent id) [
        | [] ↦ session
        | version ∷ versions ↦
            let session' = append_plan_versions session (version ∷ versions) in
            elim (env.read_plan_latest s.files session.agent id) [
              | none ↦ session'
              | some latest ↦ record session' { plan_content = latest }
            ]
      ]

  -- `s.persistPlanVersion(latest, revision, session)`
  unfoldable pub persist_plan_version :
      Store env.Files → String → PlanRevision → Session → Store env.Files
  unfolding lt64
  persist_plan_version s latest revision session =
      if not (is_persisted s session)
      then s
      else let version : PlanVersion = record {
        content = if lt64 0 revision.index then revision.diff else revision.content;
        index = revision.index;
        is_alteration = revision.is_alteration;
        mod_time = revision.timestamp;
      } in
        let id = session.meta.session_id in
        let files = env.write_plan_version s.files session.agent id version in
        record s { files = env.write_plan_latest files session.agent latest id }

  -- The revision of a later plan.
  abbrev pub later_revision : String → String → Session → ℕ → PlanRevision
  later_revision current previous session timestamp = record {
    content = "";
    diff = unified_diff current previous;
    index = next_plan_index session.plan_revisions;
    is_alteration = is_alteration_phase session;
    timestamp = timestamp;
  }

  -- The initial revision is kept whatever the number of revisions.
  abbrev pub keep_initial :
      Store env.Files → String → PlanRevision → Session → Store env.Files × Session
  keep_initial s current initial session =
      let session' = record session { plan_revisions = session.plan_revisions ++ initial ∷ [] } in
      (persist_plan_version s current initial session', session')

  -- The `if len(session.PlanRevisions) < maxPlanRevisions` of `recordPlanRevision`.
  abbrev pub keep_revision :
      Store env.Files → String → PlanRevision → Session → Store env.Files × Session
  keep_revision s current revision session =
      if ltb (length session.plan_revisions) max_plan_revisions
      then (
        persist_plan_version s current revision session,
        record session { plan_revisions = session.plan_revisions ++ revision ∷ [] },
      )
      else (s, session)

  -- `s.recordPlanRevision(current, previous, session, timestamp)`
  unfoldable pub record_plan_revision :
      ℕ → Store env.Files → String → String → Session → ℕ → Store env.Files × Session
  unfolding count_alteration persist_plan_version
  record_plan_revision now s current previous session timestamp =
      let at = if timestamp == 0 then now else timestamp in
      if is_empty previous
      then keep_initial s current
          (record {
            content = current;
            diff = "";
            index = 0;
            is_alteration = false;
            timestamp = at;
          })
          session
      else let revision = later_revision current previous session at in
        let counted = count_alteration revision.is_alteration session in
        let (s', kept) = keep_revision s current revision counted in
        (s', append_event kept (revised_event revision))

  -- `s.syncPlanFromDisk(content, session)`
  unfoldable pub sync_plan_from_disk : Store env.Files → String → Session → Bool × Session
  unfolding adopt_plan_versions
  sync_plan_from_disk s content session =
      if not (is_persisted s session)
      then (false, session)
      else elim (env.read_plan_latest s.files session.agent session.meta.session_id) [
        | none ↦ (false, session)
        | some latest ↦
            if str_eq latest session.plan_content then (str_eq latest content, session) else (
              str_eq latest content,
              record (adopt_plan_versions s session) { plan_content = latest },
            )
      ]

  abbrev pub notify_plan : ℕ → Store env.Files × Session → Store env.Files × Session
  notify_plan now (s, session) =
      (publish now plan_updated session.meta.session_id session.agent s, session)

  -- `s.setPlanContent(content, session, timestamp)`
  unfoldable pub set_plan_content :
      ℕ → Store env.Files → String → Session → ℕ → Store env.Files × Session
  unfolding sync_plan_from_disk record_plan_revision
  set_plan_content now s content session timestamp =
      if is_empty content || str_eq content session.plan_content
      then (s, session)
      else if is_plan_replay session timestamp
      then notify_plan now (s, record session { plan_content = content })
      else let (on_disk, synced) = sync_plan_from_disk s content session in
        if on_disk
        then notify_plan now (s, synced)
        else notify_plan now (
            record_plan_revision now s content synced.plan_content
              (record synced { plan_content = content }) timestamp)

  -- The fallback of `updatePlanContent` for a worktree.
  unfoldable pub update_from_worktree :
      ℕ → Store env.Files → Session → Turn → Meta → Store env.Files × Session
  unfolding set_plan_content
  update_from_worktree now s session turn meta =
      if is_empty meta.cwd
      then (s, session)
      else let alt = env.worktree_plan meta.cwd turn.plan_file_path in
        elim (env.read_file s.files alt) [
          | none ↦ (s, session)
          | some content ↦
              set_plan_content now s content (record session { plan_file_path = alt })
                turn.timestamp
        ]

  -- `s.updatePlanContent(session, turn)`; `none` is the panic of a nil meta pointer.
  unfoldable pub update_plan_content :
      ℕ → Store env.Files → Session → Turn → Option (Store env.Files × Session)
  unfolding update_from_worktree
  update_plan_content now s session turn =
      if not (is_empty turn.plan_content)
      then some (set_plan_content now s turn.plan_content session turn.timestamp)
      else elim (env.read_file s.files turn.plan_file_path) [
        | some content ↦ some (set_plan_content now s content session turn.timestamp)
        | none ↦ elim turn.meta [
          | none ↦ none
          | some meta ↦ some (update_from_worktree now s session turn meta)
        ]
      ]

  -- `s.UpdatePlanForPath(filePath, content)`: every session with the path, in the map's order.
  unfoldable pub update_plan_sessions :
      ℕ → Store env.Files → String → String → Assoc Session → Store env.Files × Assoc Session
  unfolding set_plan_content
  update_plan_sessions now s file_path content [] = (s, [])
  update_plan_sessions now s file_path content ((id, session) ∷ rest) =
      let (s', session') =
        if str_eq session.plan_file_path file_path
        then set_plan_content now s content session now
        else (s, session) in
      let (s'', rest') = update_plan_sessions now s' file_path content rest in
      (s'', (id, session') ∷ rest')

  unfoldable pub update_plan_for_path : ℕ → Store env.Files → String → String → Store env.Files
  unfolding update_plan_sessions
  update_plan_for_path now s file_path content =
      let (s', sessions) = update_plan_sessions now s file_path content s.sessions in
      record s' { sessions = sessions }
