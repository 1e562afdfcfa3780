-- ===== src/Session/Snapshot/Restored.antt =====
-- session/store_snapshot.go: a session that goes through a snapshot comes back.

use peek_mcp.Prelude.{
  ℕ, ◌≡◌, refl, ap, ◌∙◌, true, false, List, [], ◌∷◌, some, length, is_some, ltb, arith,
  Option-cases, inl, inr,
}
use peek_mcp.Prelude.Gob.{Carries}
use peek_mcp.Session.EventBuffer
use peek_mcp.Session.EventBuffer.{EventBuffer}
use peek_mcp.Session.TurnBuffer
use peek_mcp.Session.TurnBuffer.{TurnBuffer}
use peek_mcp.Prelude.Assoc.{Assoc}
use peek_mcp.Session.State.{
  Session, SubagentStat, UsageTarget, RequestUsage, session_total, skill_usage, subagent_usage,
}
use peek_mcp.Session.Usage.{Usage}
use peek_mcp.Session.Sound.{IsSound, AllBelow}
use peek_mcp.Session.Requests.Targets.{AllLive}
use peek_mcp.Session.Requests.Ledger.{EntriesLive}
use peek_mcp.Session.Snapshot.{
  active_skill_indexes, usage_target, target_keys, request_usage_snapshots, new_session_snapshot,
  SessionGob, SessionSnapshot, received_events, received_turns, sent_events, sent_turns,
  sent_subagents, exported, resolve, restore_targets, restore_requests, restore_windows, restore,
}

-- The session of a snapshot after its decoding.
abbrev bare : Session → Session
bare s = record s {
  active_skills = [];
  current_prompt_id = "";
  plan_exit_seen = false;
  usage_by_request_id = [];
}

module _ {Bytes : Type 0} (gob : SessionGob Bytes) where
  -- All rings of the sub-agents are encoded without an error.
  abbrev pub AllEncode : Assoc SubagentStat → Type 0
  AllEncode [] = Unit
  AllEncode ((id, stat) ∷ stats) =
      (is_some (TurnBuffer.gob_encode gob.turns stat.turns) ≡ true) × AllEncode stats

  -- The buffers of a session are encoded without an error.
  pub record Encodes (s : Session) : Type 0 where
    pub events : is_some (EventBuffer.gob_encode gob.events s.events) ≡ true
    pub turns : is_some (TurnBuffer.gob_encode gob.turns s.turns_finished) ≡ true
    pub subagents : AllEncode s.subagents

  module _ (carries_events : Carries gob.events) (carries_turns : Carries gob.turns) where
    -- Whatever the receiver is, a buffer decodes to what was encoded.
    gob_decode-events :
        (b receiver : EventBuffer) (bytes : Bytes)
        → EventBuffer.gob_encode gob.events b ≡ some bytes
        → EventBuffer.gob_decode gob.events receiver bytes ≡ some b
    unfolding EventBuffer.gob_decode EventBuffer.gob_encode
    gob_decode-events b receiver bytes e = rw (carries_events _ bytes e) refl

    sent_events-same :
        (b : EventBuffer)
        → is_some (EventBuffer.gob_encode gob.events b) ≡ true
        → sent_events gob b ≡ some b
    unfolding sent_events
    sent_events-same b encodes = elim (Option-cases (EventBuffer.gob_encode gob.events b)) [
      | inl e ↦ absurd (ground (arith, e, encodes))
      | inr (bytes, e) ↦ ap (received_events gob) e ∙ gob_decode-events b EventBuffer.blank bytes e
    ]

    -- Whatever the receiver is, a buffer decodes to what was encoded.
    gob_decode-turns :
        (b receiver : TurnBuffer) (bytes : Bytes)
        → TurnBuffer.gob_encode gob.turns b ≡ some bytes
        → TurnBuffer.gob_decode gob.turns receiver bytes ≡ some b
    unfolding TurnBuffer.gob_decode TurnBuffer.gob_encode
    gob_decode-turns b receiver bytes e = rw (carries_turns _ bytes e) refl

    sent_turns-same :
        (b : TurnBuffer)
        → is_some (TurnBuffer.gob_encode gob.turns b) ≡ true
        → sent_turns gob b ≡ some b
    unfolding sent_turns
    sent_turns-same b encodes = elim (Option-cases (TurnBuffer.gob_encode gob.turns b)) [
      | inl e ↦ absurd (ground (arith, e, encodes))
      | inr (bytes, e) ↦ ap (received_turns gob) e ∙ gob_decode-turns b TurnBuffer.blank bytes e
    ]

    sent_subagents-same :
        (stats : Assoc SubagentStat) → AllEncode stats → sent_subagents gob stats ≡ some stats
    unfolding sent_subagents
    sent_subagents-same [] h = refl
    sent_subagents-same ((id, stat) ∷ stats) (encodes, h) =
        rw (sent_turns-same stat.turns encodes, sent_subagents-same stats h) refl

    exported-bare :
        (s : Session)
        → Encodes s
        → exported gob (new_session_snapshot s)
          ≡ some (record (new_session_snapshot s) { session = bare s })
    unfolding exported new_session_snapshot
    exported-bare s h =
        rw
          (
            sent_events-same s.events h.events,
            sent_turns-same s.turns_finished h.turns,
            sent_subagents-same s.subagents h.subagents,
          )
          refl

restore_windows-active_skill_indexes :
    (s : Session) (windows : Assoc ℕ)
    → AllBelow (length s.skills) windows
    → restore_windows (bare s) (active_skill_indexes s windows) ≡ some windows
unfolding restore_windows active_skill_indexes
restore_windows-active_skill_indexes s [] h = refl
restore_windows-active_skill_indexes s ((actor, i) ∷ windows) (below, h) =
    let e : ltb i (length s.skills) ≡ true = ground arith in
    rw (e, e, restore_windows-active_skill_indexes s windows h) refl

restore_targets-target_keys :
    (s : Session) (targets : List UsageTarget)
    → AllLive s targets
    → restore_targets (bare s) (target_keys s targets) ≡ some targets
unfolding restore_targets target_keys usage_target resolve
restore_targets-target_keys s [] h = refl
restore_targets-target_keys s (session_total ∷ targets) (live, h) =
    rw (restore_targets-target_keys s targets h) refl
restore_targets-target_keys s (skill_usage i ∷ targets) (live, h) =
    let e : ltb i (length s.skills) ≡ true = ground arith in
    rw (e, e, restore_targets-target_keys s targets h) refl
restore_targets-target_keys s (subagent_usage id ∷ targets) (live, h) =
    rw (live, live, restore_targets-target_keys s targets h) refl

restore_requests-request_usage_snapshots :
    (s : Session) (requests : Assoc RequestUsage)
    → EntriesLive s requests
    → restore_requests (bare s) (request_usage_snapshots s requests) ≡ some requests
unfolding restore_requests request_usage_snapshots
restore_requests-request_usage_snapshots s [] h = refl
restore_requests-request_usage_snapshots s ((id, usage) ∷ requests) (live, h) =
    rw
      (
        restore_targets-target_keys s usage.targets live,
        restore_requests-request_usage_snapshots s requests h,
      )
      refl

restore-bare :
    (base : Usage) (s : Session)
    → IsSound base s
    → restore (record (new_session_snapshot s) { session = bare s }) ≡ some s
unfolding restore new_session_snapshot
restore-bare base s h =
    rw
      (
        restore_windows-active_skill_indexes s s.active_skills h.windows,
        restore_requests-request_usage_snapshots s s.usage_by_request_id h.balanced.live,
      )
      refl

-- A sound session that is put in a snapshot, whose buffers are encoded without an error by codecs
-- that carry the form in which the buffers encode themselves, is decoded without an error, and is
-- restored without a panic as it was: its events, its rings and their counts, the windows of its
-- skills, the requests and the totals that they count in included.
pub restore-new_session_snapshot :
    {Bytes : Type 0} (gob : SessionGob Bytes)
    → Carries gob.events
    → Carries gob.turns
    → (base : Usage) (s : Session) → IsSound base s
    → Encodes gob s
    → (received : SessionSnapshot) × (exported gob (new_session_snapshot s) ≡ some received)
      × (restore received ≡ some s)
restore-new_session_snapshot gob carries_events carries_turns base s h encodes = (
  record (new_session_snapshot s) { session = bare s },
  exported-bare gob carries_events carries_turns s encodes,
  restore-bare base s h,
)
