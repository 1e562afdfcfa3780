-- ===== src/Session/Requests.antt =====
-- session/session.go: the token usage of requests. A request is reported again with each chunk of
-- its answer; `applyRequestUsage` takes back what the previous report had counted.
-- The totals are compared with the ledger in the modules below.
pub mod Targets
pub mod Charges
pub mod Ledger
use peek_mcp.Prelude.{ℕ, String, List, [], ◌∷◌, Option, none, some, modify}
use peek_mcp.Prelude.Assoc.{Assoc, lookup, insert}
use peek_mcp.Session.State.{
  Session, SkillStat, SubagentStat, RequestUsage, UsageTarget, session_total, skill_usage,
  subagent_usage,
}
use peek_mcp.Session.Usage
use peek_mcp.Session.Usage.{Usage}

abbrev pub on_skill : (Usage → Usage) → SkillStat → SkillStat
on_skill f stat = record stat { usage = f stat.usage }

abbrev pub on_subagent : (Usage → Usage) → SubagentStat → SubagentStat
on_subagent f stat = record stat { usage = f stat.usage }

abbrev pub update_at {ℓ} : {V : Type ℓ} → String → (V → V) → Assoc V → Option V → Assoc V
update_at k f m none = m
update_at k f m (some v) = insert k (f v) m

-- A write through a pointer to a usage total.
unfoldable pub on_target : (Usage → Usage) → Session → UsageTarget → Session
on_target f s session_total = record s { total_usage = f s.total_usage }
on_target f s (skill_usage i) = record s { skills = modify (on_skill f) s.skills i }
on_target f s (subagent_usage id) = record s {
  subagents = update_at id (on_subagent f) s.subagents (lookup id s.subagents);
}

unfoldable pub on_targets : (Usage → Usage) → Session → List UsageTarget → Session
unfolding on_target
on_targets f s [] = s
on_targets f s (target ∷ targets) = on_targets f (on_target f s target) targets

-- `for _, target := range previous.targets { target.Sub(&previous.counted) }`
unfoldable pub take_back : Session → Option RequestUsage → Session
unfolding on_targets
take_back s none = s
take_back s (some previous) =
    on_targets (λ u. Usage.sub u (some previous.counted)) s previous.targets

-- `s.applyRequestUsage(requestId, usage, targets)`
unfoldable pub apply_request_usage : Session → String → Usage → List UsageTarget → Session
unfolding take_back
apply_request_usage s request_id usage targets =
    let s₁ = take_back s (lookup request_id s.usage_by_request_id) in
    let s₂ = on_targets (λ u. Usage.add u (some usage)) s₁ targets in
    record s₂ {
      usage_by_request_id =
          insert request_id (record { counted = usage; targets = targets }) s₂.usage_by_request_id;
    }
