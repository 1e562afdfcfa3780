-- ===== src/Store/Plan/Bound.antt =====
-- session/store.go: how many revisions of a plan `setPlanContent` keeps.
use peek_mcp.Prelude.{
  ℕ, ◌≤◌, ◌≡◌, refl, ◌∙◌, String, Bool, true, false, ◌||◌, [], Option, none, some, length, arith,
  length-snoc, is_empty, str_eq, ◌==◌, if◌then◌else◌, Bool-cases, inl, inr,
}
use peek_mcp.Session.Event.{Event, EventKind, SkillPayload, skill_invoked}
use peek_mcp.Prelude.Words.{add64}
use peek_mcp.Session.EventBuffer
use peek_mcp.Session.State.{Session, PlanRevision}
use peek_mcp.Session.Queries.{is_plan_replay}
use peek_mcp.Session.Skills.{
  add_event, count_event, count_denial, invoke_skill, open_skill_window, close_skill_window,
}
use peek_mcp.Store.Env.{Env}
use peek_mcp.Store.State.{Store}
use peek_mcp.Store.Actors.{append_event, resolve_subagent_actor}
use peek_mcp.Store.Plan.{
  max_plan_revisions, is_persisted, count_alteration, keep_revision, later_revision, revised_event,
  record_plan_revision, sync_plan_from_disk, set_plan_content,
}

-- The parts of a session that a plan is in.
pub record SamePlan (s s' : Session) : Type 0 where
  pub revisions : s'.plan_revisions ≡ s.plan_revisions
  pub content : s'.plan_content ≡ s.plan_content

close_skill_window-SamePlan :
    (s : Session) (actor : String) (timestamp : ℕ)
    → SamePlan s (close_skill_window s actor timestamp)
unfolding close_skill_window
close_skill_window-SamePlan s actor timestamp = ground arith

open_skill_window-SamePlan :
    (s : Session) (event : Event) (payload : SkillPayload)
    → SamePlan s (open_skill_window s event payload)
unfolding open_skill_window
open_skill_window-SamePlan s event payload =
    let same = close_skill_window-SamePlan s event.actor event.timestamp in
    ground (arith, same.revisions, same.content)

invoke_skill-SamePlan :
    (s : Session) (event : Event) (payload : Option SkillPayload)
    → SamePlan s (invoke_skill s event payload)
unfolding invoke_skill
invoke_skill-SamePlan s event none = record { revisions = refl; content = refl }
invoke_skill-SamePlan s event (some payload) = open_skill_window-SamePlan s event payload

count_event-SamePlan :
    (kind : EventKind) (s : Session) (event : Event) → SamePlan s (count_event kind s event)
unfolding count_event count_denial
count_event-SamePlan skill_invoked s event =
    let c = s.counters in
    let s' = record s { counters = record c { skills_invoked = add64 c.skills_invoked 1 } } in
    let same = invoke_skill-SamePlan s' event event.skill in
    record { revisions = same.revisions; content = same.content }
count_event-SamePlan kind s event = ground arith

resolve-SamePlan : (event : Event) (s : Session) → SamePlan s (resolve_subagent_actor event s).1
unfolding resolve_subagent_actor
resolve-SamePlan event s = ground arith

pub append_event-SamePlan : (s : Session) (event : Event) → SamePlan s (append_event s event)
unfolding append_event add_event
append_event-SamePlan s event =
    let (event', s') = resolve_subagent_actor event s in
    let s'' = record s' { events = EventBuffer.push s'.events event' } in
    let same = count_event-SamePlan event'.kind s'' event' in
    let resolved = resolve-SamePlan event s in
    record {
      revisions = same.revisions ∙ resolved.revisions;
      content = same.content ∙ resolved.content;
    }

-- No more revisions than the bound, and none before there is a plan.
pub record IsBounded (s : Session) : Type 0 where
  pub few : length s.plan_revisions ≤ max_plan_revisions
  pub started : is_empty s.plan_content ≡ true → s.plan_revisions ≡ []

pub count_alteration-SamePlan :
    (is_alteration : Bool) (s : Session) → SamePlan s (count_alteration is_alteration s)
unfolding count_alteration
count_alteration-SamePlan is_alteration s = ground arith

module _ (env : Env) where
  keep_revision-few :
      (s : Store env.Files) (current : String) (revision : PlanRevision) (session : Session)
      → length session.plan_revisions ≤ max_plan_revisions
      → let session' = (keep_revision env s current revision session).1 in
        (length session'.plan_revisions ≤ max_plan_revisions)
        × (session'.plan_content ≡ session.plan_content)
  keep_revision-few s current revision session few =
      ground (arith, length-snoc session.plan_revisions revision)

  record_plan_revision-few :
      (now : ℕ) (s : Store env.Files) (current previous : String) (session : Session)
      (timestamp : ℕ)
      → length session.plan_revisions ≤ max_plan_revisions
      → (is_empty previous ≡ true → session.plan_revisions ≡ [])
      → let session' = (record_plan_revision env now s current previous session timestamp).1 in
        (length session'.plan_revisions ≤ max_plan_revisions)
        × (session'.plan_content ≡ session.plan_content)
  unfolding record_plan_revision
  record_plan_revision-few now s current previous session timestamp few started =
      elim (Bool-cases (is_empty previous)) [
        | inl e ↦ rw (e, started e) (omega arith, refl)
        | inr e ↦
            let at = if timestamp == 0 then now else timestamp in
            let revision = later_revision env current previous session at in
            let counted = count_alteration revision.is_alteration session in
            let same = count_alteration-SamePlan revision.is_alteration session in
            let kept = keep_revision env s current revision counted in
            let (few', content) =
              keep_revision-few s current revision counted (rw same.revisions few) in
            let last = append_event-SamePlan kept.1 (revised_event revision) in
            rw e (rw last.revisions few', last.content ∙ content ∙ same.content)
      ]

  -- If a session is not kept on disk, has at most the bound of revisions, and has none while its plan
  -- is empty, then this holds of it again after its plan was set.
  pub set_plan_content-IsBounded :
      (now : ℕ) (s : Store env.Files) (content : String) (session : Session) (timestamp : ℕ)
      → is_persisted s session ≡ false
      → IsBounded session
      → IsBounded (set_plan_content env now s content session timestamp).1
  unfolding set_plan_content sync_plan_from_disk
  set_plan_content-IsBounded now s content session timestamp apart b =
      elim (Bool-cases (is_empty content || str_eq content session.plan_content)) [
        | inl e ↦ rw e b
        | inr e ↦ elim (Bool-cases (is_plan_replay session timestamp)) [
          | inl f ↦ rw (e, f) (record { few = b.few; started = λ g. absurd (ground arith) })
          | inr f ↦
              let session' = record session { plan_content = content } in
              let (few, same) =
                record_plan_revision-few now s content session.plan_content session' timestamp b.few
                  b.started in
              rw (e, f, apart) (record { few = few; started = λ g. absurd (ground arith) })
        ]
      ]
