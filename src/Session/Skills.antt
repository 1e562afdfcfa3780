-- ===== src/Session/Skills.antt =====
-- session/session.go: events, the counters they move, and the windows of skills.
use peek_mcp.Prelude.{
  ℕ, String, Bool, true, false, not, ◌&&◌, ◌||◌, List, [], ◌∷◌, ◌++◌, Option, none, some, length,
  modify, str_eq, is_empty, is_some, keep, leb, ◌==◌, if◌then◌else◌,
}
use peek_mcp.Prelude.Words.{add64}
use peek_mcp.Prelude.Assoc.{lookup, insert, erase}
use peek_mcp.Session.Event.{
  Event, EventKind, PermissionPayload, SkillPayload, model_changed, permission_denied,
  permission_granted, permission_mode_changed, plan_mode_exit, plan_rejected, skill_invoked,
  subagent_spawned, is_denied, denial_kind_cancelled, denial_kind_interrupted,
}
use peek_mcp.Session.EventBuffer
use peek_mcp.Session.State.{Session, SkillStat, max_skill_stats}
use peek_mcp.Session.Usage.{zero_usage}

abbrev pub is_cancellation : Option PermissionPayload → Bool
is_cancellation none = false
is_cancellation (some payload) =
    str_eq payload.kind denial_kind_cancelled || str_eq payload.kind denial_kind_interrupted

-- `s.countDenial(event)`
unfoldable pub count_denial : Session → Event → Session
unfolding add64
count_denial s event =
    let c = s.counters in
    if is_cancellation event.permission
    then record s {
      counters = record c { permission_cancellations = add64 c.permission_cancellations 1 };
    }
    else record s { counters = record c { permission_denials = add64 c.permission_denials 1 } }

-- `s.Denials()`
unfoldable pub denials : Session → List Event
denials s = keep (λ e. is_denied e.kind && is_some e.permission) (EventBuffer.all s.events)

-- `if stat.EndedAt.IsZero() && !timestamp.IsZero() { stat.EndedAt = timestamp }`
abbrev pub end_skill : ℕ → SkillStat → SkillStat
end_skill timestamp stat =
    if stat.ended_at == 0 && not (timestamp == 0)
    then record stat { ended_at = timestamp }
    else stat

-- `s.closeSkillWindow(actor, timestamp)`
unfoldable pub close_skill_window : Session → String → ℕ → Session
close_skill_window s actor timestamp = elim (lookup actor s.active_skills) [
  | none ↦ s
  | some i ↦ record s {
    skills = modify (end_skill timestamp) s.skills i;
    active_skills = erase actor s.active_skills;
  }
]

-- `s.HandlePromptBoundary(promptId, timestamp)`, with `s.CloseSkillWindow(timestamp)`.
unfoldable pub handle_prompt_boundary : Session → String → ℕ → Session
unfolding close_skill_window
handle_prompt_boundary s prompt_id timestamp =
    let is_same_submission = not (is_empty prompt_id) && str_eq prompt_id s.current_prompt_id in
    let s' = record s { current_prompt_id = prompt_id } in
    if is_same_submission then s' else close_skill_window s' "" timestamp

abbrev pub new_skill : Event → SkillPayload → SkillStat
new_skill event payload = record {
  agent_id = event.actor;
  skill = payload.skill;
  args = payload.args;
  model = "";
  started_at = event.timestamp;
  ended_at = 0;
  usage = zero_usage;
}

-- `s.openSkillWindow(event)` of an event with a skill payload.
unfoldable pub open_skill_window : Session → Event → SkillPayload → Session
unfolding close_skill_window
open_skill_window s event payload =
    let s' = close_skill_window s event.actor event.timestamp in
    if leb max_skill_stats (length s'.skills) then s' else record s' {
      skills = s'.skills ++ new_skill event payload ∷ [];
      active_skills = insert event.actor (length s'.skills) s'.active_skills;
    }

unfoldable pub invoke_skill : Session → Event → Option SkillPayload → Session
invoke_skill s event none = s
invoke_skill s event (some payload) = open_skill_window s event payload

-- The `switch` of `AddEvent`.
unfoldable pub count_event : EventKind → Session → Event → Session
unfolding count_denial add64 invoke_skill
count_event model_changed s event =
    let c = s.counters in
    record s { counters = record c { model_changes = add64 c.model_changes 1 } }
count_event permission_denied s event = count_denial s event
count_event permission_granted s event =
    let c = s.counters in
    record s { counters = record c { permission_grants = add64 c.permission_grants 1 } }
count_event permission_mode_changed s event =
    let c = s.counters in
    record s { counters = record c { permission_mode_changes = add64 c.permission_mode_changes 1 } }
count_event plan_mode_exit s event = record s { plan_exit_seen = true }
count_event plan_rejected s event =
    let c = s.counters in
    record s { counters = record c { plan_rejections = add64 c.plan_rejections 1 } }
count_event skill_invoked s event =
    let c = s.counters in
    invoke_skill (record s { counters = record c { skills_invoked = add64 c.skills_invoked 1 } })
      event event.skill
count_event subagent_spawned s event =
    let c = s.counters in
    record s { counters = record c { subagents_spawned = add64 c.subagents_spawned 1 } }
count_event _ s event = s

-- `s.AddEvent(event)`
unfoldable pub add_event : Session → Event → Session
unfolding count_event
add_event s event =
    count_event event.kind (record s { events = EventBuffer.push s.events event }) event
