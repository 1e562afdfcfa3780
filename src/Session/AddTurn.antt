-- ===== src/Session/AddTurn.antt =====
-- session/session.go: a turn added to its session, or to one of its subagents. `none` is a panic:
-- a nil meta pointer, or a push into a ring without room for one turn.
use Prim.Native.Nat.{min}
use mathlib.Core.Option
use peek_mcp.Prelude.{
  ℕ, ◌-◌, String, not, ◌&&◌, List, [], ◌∷◌, Option, none, some, modify, leb, str_eq, is_empty, ◌==◌,
  if◌then◌else◌,
}
use peek_mcp.Prelude.Words.{add64}
use peek_mcp.Prelude.Assoc.{lookup}
use peek_mcp.Session.Meta
use peek_mcp.Session.Meta.{Meta}
use peek_mcp.Session.Turn.{Turn}
use peek_mcp.Session.Usage.{Usage}
use peek_mcp.Session.State.{
  Session, SkillStat, UsageTarget, session_total, skill_usage, idle_threshold, stop_reason_tool_use,
}
use peek_mcp.Session.Skills.{close_skill_window}
use peek_mcp.Session.Requests.{apply_request_usage}
use peek_mcp.Session.Turns.{append_turn}

-- `t.Sub(u)`, which ends at the largest duration; an earlier `t` gives 0 here and a negative
-- duration there, and the code tests only whether five minutes have passed.
abbrev pub time_gap : ℕ → ℕ → ℕ
time_gap t u = min (t - u) 9223372036854775807

-- The times of a turn that has one.
unfoldable pub stamp : Session → ℕ → Session
unfolding add64
stamp s timestamp =
    if timestamp == 0
    then s
    else let gap = time_gap timestamp s.last_active in
      record s {
        started_at = if s.started_at == 0 then timestamp else s.started_at;
        idle =
            if not (s.last_active == 0) && leb idle_threshold gap then add64 s.idle gap else s.idle;
        last_active = timestamp;
      }

-- `skill.EndedAt = timestamp; if skill.Model == "" { skill.Model = model }`
abbrev pub use_skill : ℕ → String → SkillStat → SkillStat
use_skill timestamp model skill = record skill {
  ended_at = timestamp;
  model = if is_empty skill.model then model else skill.model;
}

-- The skill that is active for an actor takes part in the usage.
abbrev pub with_skill : Session → Option ℕ → ℕ → String → Session
with_skill s none timestamp model = s
with_skill s (some i) timestamp model = record s {
  skills = modify (use_skill timestamp model) s.skills i;
}

abbrev pub skill_target : Option ℕ → List UsageTarget
skill_target none = []
skill_target (some i) = skill_usage i ∷ []

-- The usage of a turn, counted for a total and for the active skill of an actor.
unfoldable pub count_usage : Session → UsageTarget → String → Turn → Option Usage → String → Session
count_usage s total actor turn none model = s
count_usage s total actor turn (some usage) model =
    if is_empty turn.request_id
    then s
    else let active = lookup actor s.active_skills in
      apply_request_usage (with_skill s active turn.timestamp model) turn.request_id usage
        (total ∷ skill_target active)

-- `s.AddTurn(nextTurn)` with the meta data of the turn.
unfoldable pub add_turn_with : Session → Turn → Meta → Option Session
unfolding stamp count_usage
add_turn_with s turn meta =
    let s₁ = stamp (record s { meta = Meta.update s.meta meta }) turn.timestamp in
    let s₂ = count_usage s₁ session_total "" turn turn.usage meta.model in
    let s₃ =
      if not (is_empty turn.stop_reason) && not (str_eq turn.stop_reason stop_reason_tool_use)
      then close_skill_window s₂ "" turn.timestamp
      else s₂ in
    Option.map (λ (next, buffer). record s₃ { turn_active = some next; turns_finished = buffer })
      (append_turn s₃.turn_active s₃.turns_finished turn)

-- `s.AddTurn(nextTurn)`
unfoldable pub add_turn : Session → Turn → Option Session
unfolding add_turn_with
add_turn s turn = elim turn.meta [ none ↦ none | some meta ↦ add_turn_with s turn meta ]
