-- ===== src/Session/Sound/Reports.antt =====
-- session/session.go: what `AddTurn` enters in the ledger of requests.
use mathlib.Core.Option
use mathlib.Core.Option.{some-injective}
use peek_mcp.Prelude.{
  ℕ, ◌≡◌, refl, sym, ap, ◌∙◌, String, Bool, true, false, not, ◌&&◌, ◌∷◌, Option, none, some, arith,
  str_eq, is_empty, ◌==◌, Bool-cases, Option-cases, inl, inr, if◌then◌else◌,
}
use peek_mcp.Prelude.Assoc.{Assoc, lookup, insert, lookup-insert}
use peek_mcp.Session.Meta
use peek_mcp.Session.Meta.{Meta}
use peek_mcp.Session.Turn.{Turn}
use peek_mcp.Session.TurnBuffer.{TurnBuffer}
use peek_mcp.Session.Usage
use peek_mcp.Session.Usage.{Usage}
use peek_mcp.Session.Usage.Laws.{plus}
use peek_mcp.Session.State.{Session, UsageTarget, RequestUsage, session_total, stop_reason_tool_use}
use peek_mcp.Session.Skills.{close_skill_window}
use peek_mcp.Session.Requests.{take_back, apply_request_usage}
use peek_mcp.Session.Requests.Targets.{usage_at}
use peek_mcp.Session.Requests.Charges.{charged}
use peek_mcp.Session.Requests.Ledger.{base_at, requests-on_targets, requests-take_back}
use peek_mcp.Session.Turns.{append_turn}
use peek_mcp.Session.AddTurn.{stamp, with_skill, skill_target, count_usage, add_turn_with, add_turn}
use peek_mcp.Session.Sound.{IsSound}
use peek_mcp.Session.Sound.Turns.{add_turn-with, add_turn-IsSound}

-- What the ledger keeps of a report of a turn.
abbrev pub report_of : Session → Usage → RequestUsage
report_of s usage = record {
  counted = usage;
  targets = session_total ∷ skill_target (lookup "" s.active_skills);
}

requests-apply_request_usage :
    (s : Session) (id : String) (report : RequestUsage)
    → (apply_request_usage s id report.counted report.targets).usage_by_request_id
      ≡ insert id report s.usage_by_request_id
unfolding apply_request_usage
requests-apply_request_usage s id report = ap (insert id report) (
    requests-on_targets (λ v. Usage.add v (some report.counted))
      (take_back s (lookup id s.usage_by_request_id)) report.targets
    ∙ requests-take_back s (lookup id s.usage_by_request_id))

requests-with_skill :
    (s : Session) (o : Option ℕ) (timestamp : ℕ) (model : String)
    → (with_skill s o timestamp model).usage_by_request_id ≡ s.usage_by_request_id
requests-with_skill s none timestamp model = refl
requests-with_skill s (some i) timestamp model = refl

requests-count_usage :
    (s : Session) (turn : Turn) (usage : Usage) (model : String)
    → is_empty turn.request_id ≡ false
    → (count_usage s session_total "" turn (some usage) model).usage_by_request_id
      ≡ insert turn.request_id (report_of s usage) s.usage_by_request_id
unfolding count_usage
requests-count_usage s turn usage model named =
    let used = with_skill s (lookup "" s.active_skills) turn.timestamp model in
    rw named (
      requests-apply_request_usage used turn.request_id (report_of s usage)
      ∙ ap (insert turn.request_id (report_of s usage))
          (requests-with_skill s (lookup "" s.active_skills) turn.timestamp model))

requests-close_skill_window :
    (s : Session) (actor : String) (timestamp : ℕ)
    → (close_skill_window s actor timestamp).usage_by_request_id ≡ s.usage_by_request_id
unfolding close_skill_window
requests-close_skill_window s actor timestamp = elim (Option-cases (lookup actor s.active_skills)) [
  | inl e ↦ rw (e, close_skill_window) refl
  | inr (i, e) ↦ rw (e, close_skill_window) refl
]

requests-if_closed :
    (b : Bool) (s : Session) (timestamp : ℕ)
    → (if b then close_skill_window s "" timestamp else s).usage_by_request_id
      ≡ s.usage_by_request_id
requests-if_closed true s timestamp = requests-close_skill_window s "" timestamp
requests-if_closed false s timestamp = refl

stamp-keeps :
    (s : Session) (timestamp : ℕ)
    → ((stamp s timestamp).usage_by_request_id ≡ s.usage_by_request_id)
      × ((stamp s timestamp).active_skills ≡ s.active_skills)
unfolding stamp
stamp-keeps s timestamp = elim (Bool-cases (timestamp == 0)) [
  | inl e ↦ rw e (refl, refl)
  | inr e ↦ rw e (refl, refl)
]

requests-appended :
    (s s' : Session) (o : Option (Turn × TurnBuffer))
    → Option.map
        (λ (p : Turn × TurnBuffer). record s { turn_active = some p.0; turns_finished = p.1 })
        o
      ≡ some s'
    → s'.usage_by_request_id ≡ s.usage_by_request_id
requests-appended s s' none e = absurd (ground (arith, e))
requests-appended s s' (some p) e =
    let it = record s { turn_active = some p.0; turns_finished = p.1 } in
    ap (λ (r : Session). r.usage_by_request_id) (sym (some-injective it s' e))

requests-add_turn_with :
    (s s' : Session) (turn : Turn) (meta : Meta) (usage : Usage)
    → turn.usage ≡ some usage
    → is_empty turn.request_id ≡ false
    → add_turn_with s turn meta ≡ some s'
    → s'.usage_by_request_id ≡ insert turn.request_id (report_of s usage) s.usage_by_request_id
unfolding add_turn_with
requests-add_turn_with s s' turn meta usage u named e =
    let s₀ = record s { meta = Meta.update s.meta meta } in
    let s₁ = stamp s₀ turn.timestamp in
    let s₂ = count_usage s₁ session_total "" turn turn.usage meta.model in
    let b = not (is_empty turn.stop_reason) && not (str_eq turn.stop_reason stop_reason_tool_use) in
    let s₃ = if b then close_skill_window s₂ "" turn.timestamp else s₂ in
    let (ledger, windows) = stamp-keeps s₀ turn.timestamp in
    requests-appended s₃ s' (append_turn s₃.turn_active s₃.turns_finished turn) e
    ∙ requests-if_closed b s₂ turn.timestamp
    ∙ ap
        (λ (o : Option Usage).
          (count_usage s₁ session_total "" turn o meta.model).usage_by_request_id)
        u
    ∙ requests-count_usage s₁ turn usage meta.model named
    ∙ ap
        (λ (m : Assoc ℕ).
          insert turn.request_id
            (record { counted = usage; targets = session_total ∷ skill_target (lookup "" m) })
            s₁.usage_by_request_id)
        windows
    ∙ ap (insert turn.request_id (report_of s usage)) ledger

-- On a sound session AddTurn of a turn with meta data, a usage and the id of a request returns
-- without a panic. The ledger then has the usage as the last report of that request, for the
-- session's total and for the main thread's open skill, and every other request as before; and
-- each total is its base and the sum of this ledger.
pub add_turn-reports :
    {base : Usage} (s : Session) (turn : Turn) (meta : Meta) (usage : Usage)
    → turn.meta ≡ some meta
    → turn.usage ≡ some usage
    → is_empty turn.request_id ≡ false
    → IsSound base s
    → (s' : Session) × (add_turn s turn ≡ some s')
      × ((id : String)
          → lookup id s'.usage_by_request_id ≡ (
              if str_eq turn.request_id id
              then some (report_of s usage)
              else lookup id s.usage_by_request_id))
      × ((t : UsageTarget)
          → usage_at t s' ≡ plus (base_at base t) (charged t s'.usage_by_request_id))
add_turn-reports {base} s turn meta usage m u named h =
    let (s', ran, h') = add_turn-IsSound s turn meta m h in
    let ledger =
      requests-add_turn_with s s' turn meta usage u named
        (sym (add_turn-with s turn meta m) ∙ ran) in
    (
      s',
      ran,
      λ id.
          ap (lookup id) ledger
          ∙ lookup-insert turn.request_id id (report_of s usage) s.usage_by_request_id,
      h'.balanced.total,
    )
