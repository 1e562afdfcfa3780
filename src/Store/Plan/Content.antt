-- ===== src/Store/Plan/Content.antt =====
-- session/store.go: the content of a plan after `setPlanContent`.
use peek_mcp.Prelude.{
  ℕ, ◌≡◌, refl, ◌∙◌, String, true, false, arith, eq_iff, is_empty, str_eq, ◌==◌, if◌then◌else◌,
  Bool-cases, Option-cases, inl, inr,
}
use peek_mcp.Session.State.{Session, PlanRevision}
use peek_mcp.Session.Queries.{is_plan_replay}
use peek_mcp.Store.Env.{Env}
use peek_mcp.Store.State.{Store}
use peek_mcp.Store.Plan.{
  is_persisted, count_alteration, keep_revision, later_revision, revised_event,
  record_plan_revision, sync_plan_from_disk, set_plan_content,
}
use peek_mcp.Store.Plan.Bound.{append_event-SamePlan, count_alteration-SamePlan}

module _ (env : Env) where
  keep_revision-content :
      (s : Store env.Files) (current : String) (revision : PlanRevision) (session : Session)
      → (keep_revision env s current revision session).1.plan_content ≡ session.plan_content
  keep_revision-content s current revision session = ground arith

  record_plan_revision-content :
      (now : ℕ) (s : Store env.Files) (current previous : String) (session : Session)
      (timestamp : ℕ)
      → (record_plan_revision env now s current previous session timestamp).1.plan_content
        ≡ session.plan_content
  unfolding record_plan_revision
  record_plan_revision-content now s current previous session timestamp =
      elim (Bool-cases (is_empty previous)) [
        | inl e ↦ rw e refl
        | inr e ↦
            let at = if timestamp == 0 then now else timestamp in
            let revision = later_revision env current previous session at in
            let counted = count_alteration revision.is_alteration session in
            let kept = keep_revision env s current revision counted in
            rw e (
              (append_event-SamePlan kept.1 (revised_event revision)).content
              ∙ keep_revision-content s current revision counted
              ∙ (count_alteration-SamePlan revision.is_alteration session).content)
      ]

  sync_plan_from_disk-content :
      (s : Store env.Files) (content : String) (session : Session)
      → (sync_plan_from_disk env s content session).0 ≡ true
      → (sync_plan_from_disk env s content session).1.plan_content ≡ content
  unfolding sync_plan_from_disk
  sync_plan_from_disk-content s content session h = elim (Bool-cases (is_persisted s session)) [
    | inl p ↦
        elim (Option-cases (env.read_plan_latest s.files session.agent session.meta.session_id)) [
          | inl e ↦ absurd (ground (arith, p, e, h))
          | inr (latest, e) ↦
              ground (arith, p, e, h, eq_iff latest content, eq_iff latest session.plan_content)
        ]
    | inr p ↦ absurd (ground (arith, p, h))
  ]

  -- A plan that is set is the plan: unless it is empty, the session's content is then the given one,
  -- whether it is a replay, on disk already, or a revision.
  pub set_plan_content-content :
      (now : ℕ) (s : Store env.Files) (content : String) (session : Session) (timestamp : ℕ)
      → is_empty content ≡ false
      → (set_plan_content env now s content session timestamp).1.plan_content ≡ content
  unfolding set_plan_content
  set_plan_content-content now s content session timestamp filled =
      elim (Bool-cases (str_eq content session.plan_content)) [
        | inl e ↦ rw (filled, e) (ground (arith, eq_iff content session.plan_content))
        | inr e ↦ elim (Bool-cases (is_plan_replay session timestamp)) [
          | inl f ↦ rw (filled, e, f) refl
          | inr f ↦
              let (on_disk, synced) = sync_plan_from_disk env s content session in
              elim (Bool-cases (sync_plan_from_disk env s content session).0) [
                | inl g ↦ rw (filled, e, f, g) (sync_plan_from_disk-content s content session g)
                | inr g ↦
                    rw (filled, e, f, g)
                      (record_plan_revision-content now s content synced.plan_content
                        (record synced { plan_content = content }) timestamp)
              ]
        ]
      ]
