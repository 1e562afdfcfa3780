-- ===== src/Session/Sound/Events.antt =====
-- session/session.go: soundness under `AddEvent`, prompts and skill windows.
use peek_mcp.Prelude.{
  ℕ, ◌+◌, ◌≡◌, refl, String, true, not, ◌&&◌, [], ◌∷◌, ◌++◌, Option, none, some, length,
  length-modify, length-snoc, modify, arith, str_eq, is_empty, Bool-cases, Option-cases, inl, inr,
  leb,
}
use peek_mcp.Prelude.Assoc.{lookup, insert, erase}
use peek_mcp.Session.Event.{
  Event, EventKind, SkillPayload, model_changed, permission_denied, permission_granted,
  permission_mode_changed, plan_mode_exit, plan_rejected, skill_invoked, subagent_spawned, Counters,
}
use peek_mcp.Session.EventBuffer
use peek_mcp.Session.EventBuffer.{EventBuffer}
use peek_mcp.Session.State.{Session, SkillStat, max_skill_stats}
use peek_mcp.Session.Usage.{Usage}
use peek_mcp.Session.Skills.{
  end_skill, close_skill_window, handle_prompt_boundary, new_skill, open_skill_window,
  is_cancellation, count_denial, invoke_skill, count_event, add_event,
}
use peek_mcp.Session.Sound.{IsSound}
use peek_mcp.Session.Sound.Frame.{
  Balances-SameTotals, skill_usages-modify, skill_usages-snoc, AllBelow-mono, AllBelow-erase,
  AllBelow-insert,
}

-- The parts of a session that soundness reads are the same.
pub record SameParts (s s' : Session) : Type 0 where
  pub ring : s'.turns_finished ≡ s.turns_finished
  pub subagents : s'.subagents ≡ s.subagents
  pub skills : s'.skills ≡ s.skills
  pub windows : s'.active_skills ≡ s.active_skills
  pub total : s'.total_usage ≡ s.total_usage
  pub ledger : s'.usage_by_request_id ≡ s.usage_by_request_id

pub IsSound-SameParts :
    {base : Usage} (s s' : Session) → SameParts s s' → IsSound base s → IsSound base s'
IsSound-SameParts {base} s s' e h = record {
  ring = rw e.ring h.ring;
  rings = rw e.subagents h.rings;
  windows = rw (e.skills, e.windows) h.windows;
  balanced =
      Balances-SameTotals s s'
        (record {
          total = e.total;
          skills = λ i. rw e.skills;
          skill_count = rw e.skills (omega arith);
          subagents = λ id. rw e.subagents;
          subagent_keys = λ id k. rw e.subagents k;
          ledger = e.ledger;
        })
        h.balanced;
}

end_skill-usage : (timestamp : ℕ) (st : SkillStat) → (end_skill timestamp st).usage ≡ st.usage
end_skill-usage timestamp st = ground arith

pub close_skill_window-IsSound :
    {base : Usage} (s : Session) (actor : String) (timestamp : ℕ)
    → IsSound base s
    → IsSound base (close_skill_window s actor timestamp)
unfolding close_skill_window
close_skill_window-IsSound {base} s actor timestamp h =
    elim (Option-cases (lookup actor s.active_skills)) [
      | inl e ↦ rw (e, close_skill_window) h
      | inr (i, e) ↦
          rw (e, close_skill_window)
            (record {
              ring = h.ring;
              rings = h.rings;
              windows =
                  rw (length-modify (end_skill timestamp) s.skills i)
                    (AllBelow-erase (length s.skills) actor s.active_skills h.windows);
              balanced =
                  Balances-SameTotals s
                    (record s {
                      skills = modify (end_skill timestamp) s.skills i;
                      active_skills = erase actor s.active_skills;
                    })
                    (record {
                      total = refl;
                      skills =
                          skill_usages-modify (end_skill timestamp) (end_skill-usage timestamp)
                            s.skills i;
                      skill_count = omega (arith, length-modify (end_skill timestamp) s.skills i);
                      subagents = λ id. refl;
                      subagent_keys = λ id k. k;
                      ledger = refl;
                    })
                    h.balanced;
            })
    ]

-- A prompt keeps a session sound.
pub handle_prompt_boundary-IsSound :
    {base : Usage} (s : Session) (prompt_id : String) (timestamp : ℕ)
    → IsSound base s
    → IsSound base (handle_prompt_boundary s prompt_id timestamp)
unfolding handle_prompt_boundary
handle_prompt_boundary-IsSound {base} s prompt_id timestamp h =
    let s' = record s { current_prompt_id = prompt_id } in
    let sound : IsSound base s' = IsSound-SameParts s s' (ground arith) h in
    elim (Bool-cases (not (is_empty prompt_id) && str_eq prompt_id s.current_prompt_id)) [
      | inl e ↦ rw e sound
      | inr e ↦ rw e (close_skill_window-IsSound s' "" timestamp sound)
    ]

add_window-IsSound :
    {base : Usage} (s : Session) (event : Event) (payload : SkillPayload)
    → IsSound base s
    → IsSound base (record s {
      skills = s.skills ++ new_skill event payload ∷ [];
      active_skills = insert event.actor (length s.skills) s.active_skills;
    })
add_window-IsSound {base} s event payload h =
    let stat = new_skill event payload in
    let grown : length (s.skills ++ stat ∷ []) ≡ length s.skills + 1 = length-snoc s.skills stat in
    record {
      ring = h.ring;
      rings = h.rings;
      windows =
          AllBelow-insert event.actor (length s.skills) s.active_skills (omega (arith, grown))
            (AllBelow-mono s.active_skills (omega (arith, grown)) h.windows);
      balanced =
          Balances-SameTotals s
            (record s {
              skills = s.skills ++ stat ∷ [];
              active_skills = insert event.actor (length s.skills) s.active_skills;
            })
            (record {
              total = refl;
              skills = λ j. skill_usages-snoc s.skills stat j refl;
              skill_count = omega (arith, grown);
              subagents = λ id. refl;
              subagent_keys = λ id k. k;
              ledger = refl;
            })
            h.balanced;
    }

pub open_skill_window-IsSound :
    {base : Usage} (s : Session) (event : Event) (payload : SkillPayload)
    → IsSound base s
    → IsSound base (open_skill_window s event payload)
unfolding open_skill_window
open_skill_window-IsSound {base} s event payload h =
    let s' = close_skill_window s event.actor event.timestamp in
    let sound : IsSound base s' = close_skill_window-IsSound s event.actor event.timestamp h in
    elim (Bool-cases (leb max_skill_stats (length s'.skills))) [
      | inl e ↦ rw e sound
      | inr e ↦ rw e (add_window-IsSound s' event payload sound)
    ]

counters-IsSound :
    {base : Usage} (s : Session) (c : Counters)
    → IsSound base s
    → IsSound base (record s { counters = c })
counters-IsSound {base} s c h = IsSound-SameParts s (record s { counters = c }) (ground arith) h

invoke_skill-IsSound :
    {base : Usage} (s : Session) (event : Event) (payload : Option SkillPayload)
    → IsSound base s
    → IsSound base (invoke_skill s event payload)
unfolding invoke_skill
invoke_skill-IsSound {base} s event none h = h
invoke_skill-IsSound {base} s event (some payload) h = open_skill_window-IsSound s event payload h

count_denial-IsSound :
    {base : Usage} (s : Session) (event : Event)
    → IsSound base s
    → IsSound base (count_denial s event)
unfolding count_denial
count_denial-IsSound {base} s event h = elim (Bool-cases (is_cancellation event.permission)) [
  | inl e ↦ rw e (counters-IsSound s _ h)
  | inr e ↦ rw e (counters-IsSound s _ h)
]

count_event-IsSound :
    {base : Usage} (kind : EventKind) (s : Session) (event : Event)
    → IsSound base s
    → IsSound base (count_event kind s event)
unfolding count_event
count_event-IsSound {base} model_changed s event h = counters-IsSound s _ h
count_event-IsSound {base} permission_denied s event h = count_denial-IsSound s event h
count_event-IsSound {base} permission_granted s event h = counters-IsSound s _ h
count_event-IsSound {base} permission_mode_changed s event h = counters-IsSound s _ h
count_event-IsSound {base} plan_mode_exit s event h =
    IsSound-SameParts s (record s { plan_exit_seen = true }) (ground arith) h
count_event-IsSound {base} plan_rejected s event h = counters-IsSound s _ h
count_event-IsSound {base} skill_invoked s event h =
    invoke_skill-IsSound _ event event.skill (counters-IsSound s _ h)
count_event-IsSound {base} subagent_spawned s event h = counters-IsSound s _ h
count_event-IsSound {base} _ s event h = h

-- An event of any kind keeps a session sound.
pub add_event-IsSound :
    {base : Usage} (s : Session) (event : Event) → IsSound base s → IsSound base (add_event s event)
unfolding add_event
add_event-IsSound {base} s event h =
    let s' = record s { events = EventBuffer.push s.events event } in
    count_event-IsSound event.kind s' event (IsSound-SameParts s s' (ground arith) h)
