-- ===== src/Store/Sound/Steps.antt =====
-- session/store.go: soundness under the steps of the store that work on one session.

use peek_mcp.Prelude.{
  ℕ, String, Bool, true, false, ◌||◌, List, [], ◌∷◌, ◌++◌, Option, none, some, arith, str_eq,
  is_empty, Bool-cases, Option-cases, inl, inr, ◌==◌, if◌then◌else◌,
}
use peek_mcp.Prelude.Words.{lt64}
use peek_mcp.Session.Event.{Event}
use peek_mcp.Session.State.{Session, PlanRevision}
use peek_mcp.Session.Queries.{is_plan_replay}
use peek_mcp.Session.Sound.Events.{SameParts, IsSound-SameParts, add_event-IsSound}
use peek_mcp.Store.Env.{Env, PlanVersion}
use peek_mcp.Store.State.{Store}
use peek_mcp.Store.Actors.{resolve_subagent_actor, append_event, append_events}
use peek_mcp.Store.Plan.{
  append_plan_version, append_plan_versions, adopt_plan_version, adopt_all, adopt_plan_versions,
  hydrate_plan_state, revised_event, revision_of, count_alteration, record_plan_revision,
  sync_plan_from_disk, set_plan_content, keep_revision, is_persisted, later_revision,
  next_plan_index,
}
use peek_mcp.Session.Usage.{Usage}
use peek_mcp.Session.Sound.{IsSound}

pub Sound-SameParts :
    {base : Usage} (s s' : Session) → SameParts s s' → IsSound base s → IsSound base s'
Sound-SameParts s s' e h = IsSound-SameParts s s' e h

resolve-SameParts : (event : Event) (s : Session) → SameParts s (resolve_subagent_actor event s).1
unfolding resolve_subagent_actor
resolve-SameParts event s = ground arith

pub append_event-Sound :
    {base : Usage} (s : Session) (event : Event)
    → IsSound base s
    → IsSound base (append_event s event)
unfolding append_event
append_event-Sound s event h =
    let (event', s') = resolve_subagent_actor event s in
    let h' = Sound-SameParts s s' (resolve-SameParts event s) h in add_event-IsSound s' event' h'

pub append_events-Sound :
    {base : Usage} (s : Session) (events : List Event)
    → IsSound base s
    → IsSound base (append_events s events)
unfolding append_events
append_events-Sound s [] h = h
append_events-Sound s (event ∷ events) h =
    append_events-Sound (append_event s event) events (append_event-Sound s event h)

count_alteration-SameParts : (b : Bool) (s : Session) → SameParts s (count_alteration b s)
unfolding count_alteration
count_alteration-SameParts b s = ground arith

append_plan_version-Sound :
    {base : Usage} (s : Session) (version : PlanVersion)
    → IsSound base s
    → IsSound base (append_plan_version s version)
unfolding append_plan_version
append_plan_version-Sound s version h =
    let s' = record s { plan_revisions = s.plan_revisions ++ revision_of version ∷ [] } in
    Sound-SameParts s' (count_alteration version.is_alteration s')
      (count_alteration-SameParts version.is_alteration s') (Sound-SameParts s s' (ground arith) h)

append_plan_versions-Sound :
    {base : Usage} (s : Session) (versions : List PlanVersion)
    → IsSound base s
    → IsSound base (append_plan_versions s versions)
unfolding append_plan_versions
append_plan_versions-Sound s [] h = h
append_plan_versions-Sound s (v ∷ versions) h =
    append_plan_versions-Sound (append_plan_version s v) versions (append_plan_version-Sound s v h)

pub Sound-if :
    {base : Usage} (b : Bool) (s s' : Session)
    → IsSound base s
    → IsSound base s'
    → IsSound base (if b then s else s')
Sound-if true s s' h h' = h
Sound-if false s s' h h' = h'

adopt_plan_version-Sound :
    {base : Usage} (next : ℕ) (s : Session) (version : PlanVersion)
    → IsSound base s
    → IsSound base (adopt_plan_version next s version)
unfolding adopt_plan_version
adopt_plan_version-Sound next s version h =
    let s' = append_plan_version s version in
    let h' = append_plan_version-Sound s version h in
    let event = revised_event (revision_of version) in
    Sound-if (lt64 version.index next) s (if version.index == 0 then s' else append_event s' event)
      h
      (Sound-if (version.index == 0) s' (append_event s' event) h' (append_event-Sound s' event h'))

adopt_all-Sound :
    {base : Usage} (next : ℕ) (s : Session) (versions : List PlanVersion)
    → IsSound base s
    → IsSound base (adopt_all next s versions)
unfolding adopt_all
adopt_all-Sound next s [] h = h
adopt_all-Sound next s (v ∷ versions) h =
    adopt_all-Sound next (adopt_plan_version next s v) versions
      (adopt_plan_version-Sound next s v h)

module _ (env : Env) where
  -- The `elim`s of `hydrate_plan_state`, for any versions and any latest content.
  hydrated-Sound :
      {base : Usage} (s : Store env.Files) (session : Session) (versions : List PlanVersion)
      (latest : Option String)
      → IsSound base session
      → IsSound base (elim versions [
        | [] ↦ session
        | version ∷ versions ↦
            let session' = append_plan_versions session (version ∷ versions) in
            elim latest [
              | none ↦ session'
              | some latest ↦ record session' { plan_content = latest }
            ]
      ])
  hydrated-Sound s session [] latest h = h
  hydrated-Sound s session (v ∷ versions) none h =
      append_plan_versions-Sound session (v ∷ versions) h
  hydrated-Sound s session (v ∷ versions) (some latest) h =
      let session' = append_plan_versions session (v ∷ versions) in
      Sound-SameParts session' (record session' { plan_content = latest }) (ground arith)
        (append_plan_versions-Sound session (v ∷ versions) h)

  pub hydrate_plan_state-Sound :
      {base : Usage} (s : Store env.Files) (session : Session)
      → IsSound base session
      → IsSound base (hydrate_plan_state env s session)
  unfolding hydrate_plan_state
  hydrate_plan_state-Sound s session h =
      let id = session.meta.session_id in
      hydrated-Sound s session (env.read_plan_versions s.files session.agent id)
        (env.read_plan_latest s.files session.agent id) h

  keep_revision-Sound :
      {base : Usage} (s : Store env.Files) (current : String) (revision : PlanRevision)
      (session : Session)
      → IsSound base session
      → IsSound base (keep_revision env s current revision session).1
  keep_revision-Sound s current revision session h =
      Sound-SameParts session (keep_revision env s current revision session).1 (ground arith) h

  record_plan_revision-Sound :
      {base : Usage} (now : ℕ) (s : Store env.Files) (current previous : String) (session : Session)
      (timestamp : ℕ)
      → IsSound base session
      → IsSound base (record_plan_revision env now s current previous session timestamp).1
  unfolding record_plan_revision
  record_plan_revision-Sound now s current previous session timestamp h =
      elim (Bool-cases (is_empty previous)) [
        | inl e ↦ rw e (Sound-SameParts session _ (ground arith) h)
        | inr e ↦
            let at = if timestamp == 0 then now else timestamp in
            let revision = later_revision env current previous session at in
            let counted = count_alteration revision.is_alteration session in
            let counted-Sound =
              Sound-SameParts session counted
                (count_alteration-SameParts revision.is_alteration session) h in
            let kept = keep_revision env s current revision counted in
            rw e (
              append_event-Sound kept.1 (revised_event revision)
                (keep_revision-Sound s current revision counted counted-Sound))
      ]

  sync_plan_from_disk-Sound :
      {base : Usage} (s : Store env.Files) (content : String) (session : Session)
      → IsSound base session
      → IsSound base (sync_plan_from_disk env s content session).1
  unfolding sync_plan_from_disk adopt_plan_versions
  sync_plan_from_disk-Sound s content session h = elim (Bool-cases (is_persisted s session)) [
    | inr p ↦ rw p h
    | inl p ↦
        elim (Option-cases (env.read_plan_latest s.files session.agent session.meta.session_id)) [
          | inl e ↦ rw (p, e) h
          | inr (latest, e) ↦ elim (Bool-cases (str_eq latest session.plan_content)) [
            | inl q ↦ rw (p, e, q) h
            | inr q ↦
                let versions =
                  env.read_plan_versions s.files session.agent session.meta.session_id in
                let next = next_plan_index session.plan_revisions in
                let adopted = adopt_all next session versions in
                rw (p, e, q)
                  (Sound-SameParts adopted (record adopted { plan_content = latest }) (ground arith)
                    (adopt_all-Sound next session versions h))
          ]
        ]
  ]

  pub set_plan_content-Sound :
      {base : Usage} (now : ℕ) (s : Store env.Files) (content : String) (session : Session)
      (timestamp : ℕ)
      → IsSound base session
      → IsSound base (set_plan_content env now s content session timestamp).1
  unfolding set_plan_content
  set_plan_content-Sound now s content session timestamp h =
      elim (Bool-cases (is_empty content || str_eq content session.plan_content)) [
        | inl e ↦ rw e h
        | inr e ↦ elim (Bool-cases (is_plan_replay session timestamp)) [
          | inl f ↦
              rw (e, f)
                (Sound-SameParts session (record session { plan_content = content }) (ground arith)
                  h)
          | inr f ↦
              let (on_disk, synced) = sync_plan_from_disk env s content session in
              let k = sync_plan_from_disk-Sound s content session h in
              elim (Bool-cases (sync_plan_from_disk env s content session).0) [
                | inl g ↦ rw (e, f, g) k
                | inr g ↦
                    let synced' = record synced { plan_content = content } in
                    rw (e, f, g)
                      (record_plan_revision-Sound now s content synced.plan_content synced'
                        timestamp (Sound-SameParts synced synced' (ground arith) k))
              ]
        ]
      ]
