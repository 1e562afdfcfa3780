-- ===== src/Store/Fresh.antt =====
-- The soundness of a session that the store has just made (`getOrCreate` of session/store.go).
use peek_mcp.Prelude.{String, ◌≡◌, sym, []}
use peek_mcp.Prelude.Assoc.{lookup}
use peek_mcp.Session.Usage.{zero_usage}
use peek_mcp.Session.Usage.Laws.{plus, plus-zero, zero-IsWords}
use peek_mcp.Session.State.{UsageTarget, session_total, skill_usage, subagent_usage}
use peek_mcp.Session.TurnBuffer.{TurnBuffer}
use peek_mcp.Session.TurnBuffer.Window.{IsValid}
use peek_mcp.Session.Requests.Targets.{usage_at}
use peek_mcp.Session.Requests.Charges.{charged}
use peek_mcp.Session.Requests.Ledger.{Balances, base_at}
use peek_mcp.Session.Sound.{IsSound}
use peek_mcp.Store.AddTurn.{new_session}

new_session-total :
    (id agent : String) (ring : TurnBuffer) (t : UsageTarget)
    → usage_at t (new_session id agent ring) ≡ plus (base_at zero_usage t) (charged t [])
unfolding new_session usage_at charged lookup
new_session-total id agent ring session_total = sym (plus-zero zero_usage zero-IsWords)
new_session-total id agent ring (skill_usage i) = sym (plus-zero zero_usage zero-IsWords)
new_session-total id agent ring (subagent_usage a) = sym (plus-zero zero_usage zero-IsWords)

new_session-Balances :
    (id agent : String) (ring : TurnBuffer) → Balances zero_usage (new_session id agent ring)
unfolding new_session
new_session-Balances id agent ring = record { live = tt; total = new_session-total id agent ring }

pub new_session-IsSound :
    (id agent : String) (ring : TurnBuffer)
    → IsValid ring
    → IsSound zero_usage (new_session id agent ring)
unfolding new_session
new_session-IsSound id agent ring v = record {
  ring = v;
  rings = tt;
  windows = tt;
  balanced = new_session-Balances id agent ring;
}
