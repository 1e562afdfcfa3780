-- ===== src/Store/Sound/Keeps.antt =====
-- session/store.go: what the work on one session leaves of the store: its sessions and its depth.
use peek_mcp.Prelude.{
  ℕ, ◌≡◌, refl, ◌∙◌, String, false, ◌||◌, [], ◌∷◌, ◌++◌, arith, str_eq, is_empty, Bool-cases, inl,
  inr, ◌==◌, if◌then◌else◌,
}
use peek_mcp.Events.{EventType}
use peek_mcp.Session.State.{Session, PlanRevision}
use peek_mcp.Session.Queries.{is_plan_replay}
use peek_mcp.Store.Env.{Env}
use peek_mcp.Store.State.{Store, publish}
use peek_mcp.Store.Plan.{
  is_persisted, keep_revision, later_revision, count_alteration, persist_plan_version,
  record_plan_revision, sync_plan_from_disk, set_plan_content,
}

pub record KeepsSessions {Files : Type 0} (s s' : Store Files) : Type 0 where
  pub sessions : s'.sessions ≡ s.sessions
  pub depth : s'.depth ≡ s.depth

pub KeepsSessions-refl : {Files : Type 0} (s : Store Files) → KeepsSessions s s
KeepsSessions-refl s = record { sessions = refl; depth = refl }

pub KeepsSessions-trans :
    {Files : Type 0} (s s' s'' : Store Files)
    → KeepsSessions s s'
    → KeepsSessions s' s''
    → KeepsSessions s s''
KeepsSessions-trans s s' s'' h h' = record {
  sessions = h'.sessions ∙ h.sessions;
  depth = h'.depth ∙ h.depth;
}

pub publish-KeepsSessions :
    {Files : Type 0} (now : ℕ) (type : EventType) (id agent : String) (s s' : Store Files)
    → KeepsSessions s s'
    → KeepsSessions s (publish now type id agent s')
unfolding publish
publish-KeepsSessions now type id agent s s' h = record { sessions = h.sessions; depth = h.depth }

module _ (env : Env) where
  persist-KeepsSessions :
      (s : Store env.Files) (latest : String) (revision : PlanRevision) (session : Session)
      → KeepsSessions s (persist_plan_version env s latest revision session)
  unfolding persist_plan_version
  persist-KeepsSessions s latest revision session = elim (Bool-cases (is_persisted s session)) [
    | inl e ↦ rw e (record { sessions = refl; depth = refl })
    | inr e ↦ rw e (record { sessions = refl; depth = refl })
  ]

  keep_revision-KeepsSessions :
      (s : Store env.Files) (current : String) (revision : PlanRevision) (session : Session)
      → KeepsSessions s (keep_revision env s current revision session).0
  keep_revision-KeepsSessions s current revision session =
      let k = persist-KeepsSessions s current revision session in
      ground (arith, k.sessions, k.depth)

  record_plan_revision-KeepsSessions :
      (now : ℕ) (s : Store env.Files) (current previous : String) (session : Session)
      (timestamp : ℕ)
      → KeepsSessions s (record_plan_revision env now s current previous session timestamp).0
  unfolding record_plan_revision
  record_plan_revision-KeepsSessions now s current previous session timestamp =
      elim (Bool-cases (is_empty previous)) [
        | inl e ↦
            let initial : PlanRevision = record {
              content = current;
              diff = "";
              index = 0;
              is_alteration = false;
              timestamp = if timestamp == 0 then now else timestamp;
            } in
            rw e (
              persist-KeepsSessions s current initial
                (record session { plan_revisions = session.plan_revisions ++ initial ∷ [] }))
        | inr e ↦
            let at = if timestamp == 0 then now else timestamp in
            let revision = later_revision env current previous session at in
            rw e (
              keep_revision-KeepsSessions s current revision
                (count_alteration revision.is_alteration session))
      ]

  pub set_plan_content-KeepsSessions :
      (now : ℕ) (s : Store env.Files) (content : String) (session : Session) (timestamp : ℕ)
      → KeepsSessions s (set_plan_content env now s content session timestamp).0
  unfolding set_plan_content publish
  set_plan_content-KeepsSessions now s content session timestamp =
      elim (Bool-cases (is_empty content || str_eq content session.plan_content)) [
        | inl e ↦ rw e (record { sessions = refl; depth = refl })
        | inr e ↦ elim (Bool-cases (is_plan_replay session timestamp)) [
          | inl f ↦ rw (e, f) (record { sessions = refl; depth = refl })
          | inr f ↦
              let (on_disk, synced) = sync_plan_from_disk env s content session in
              elim (Bool-cases (sync_plan_from_disk env s content session).0) [
                | inl g ↦ rw (e, f, g) (record { sessions = refl; depth = refl })
                | inr g ↦
                    let k =
                      record_plan_revision-KeepsSessions now s content synced.plan_content
                        (record synced { plan_content = content }) timestamp in
                    rw (e, f, g) (record { sessions = k.sessions; depth = k.depth })
              ]
        ]
      ]
