-- ===== src/Session/Sound/Turns.antt =====
-- session/session.go: soundness under `AddTurn` and its parts.
use mathlib.Core.Option
use peek_mcp.Prelude.{
  ℕ, ◌≡◌, refl, ap, ◌∙◌, String, not, ◌&&◌, List, [], ◌∷◌, Option, none, some, length,
  length-modify, modify, arith, str_eq, is_empty, Bool-cases, Option-cases, inl, inr, if◌then◌else◌,
}
use peek_mcp.Prelude.Assoc.{lookup}
use peek_mcp.Session.Meta
use peek_mcp.Session.Meta.{Meta}
use peek_mcp.Session.Turn.{Turn}
use peek_mcp.Session.TurnBuffer.{TurnBuffer}
use peek_mcp.Session.TurnBuffer.Window.{IsValid, after_push, push-after_push, after_push-IsValid}
use peek_mcp.Session.Usage.{Usage}
use peek_mcp.Session.State.{
  Session, UsageTarget, RequestUsage, session_total, skill_usage, subagent_usage,
  stop_reason_tool_use,
}
use peek_mcp.Session.Skills.{close_skill_window}
use peek_mcp.Session.Requests.{
  on_skill, on_subagent, on_target, on_targets, take_back, apply_request_usage,
}
use peek_mcp.Session.Requests.Targets.{IsLive, AllLive}
use peek_mcp.Session.Requests.Ledger.{apply_request_usage-Balances}
use peek_mcp.Session.Turns.{merge, is_same_request, has_content, append_turn}
use peek_mcp.Session.AddTurn.{
  stamp, use_skill, with_skill, skill_target, count_usage, add_turn_with, add_turn,
}
use peek_mcp.Session.Sound.{IsSound, AllRings}
use peek_mcp.Session.Sound.Frame.{
  Balances-SameTotals, skill_usages-modify, AllBelow-lookup, AllRings-insert, AllRings-lookup,
}
use peek_mcp.Session.Sound.Events.{SameParts, IsSound-SameParts, close_skill_window-IsSound}

-- What a write to the totals leaves alone.
record KeepsParts (s s' : Session) : Type 0 where
  ring : s'.turns_finished ≡ s.turns_finished
  windows : s'.active_skills ≡ s.active_skills
  skill_count : length s'.skills ≡ length s.skills
  rings : AllRings s.subagents → AllRings s'.subagents

KeepsParts-trans : (a b c : Session) → KeepsParts a b → KeepsParts b c → KeepsParts a c
KeepsParts-trans a b c x y = record {
  ring = y.ring ∙ x.ring;
  windows = y.windows ∙ x.windows;
  skill_count = y.skill_count ∙ x.skill_count;
  rings = λ h. y.rings (x.rings h);
}

on_target-KeepsParts :
    (f : Usage → Usage) (s : Session) (t : UsageTarget) → KeepsParts s (on_target f s t)
unfolding on_target
on_target-KeepsParts f s session_total = record {
  ring = refl;
  windows = refl;
  skill_count = refl;
  rings = λ h. h;
}
on_target-KeepsParts f s (skill_usage i) = record {
  ring = refl;
  windows = refl;
  skill_count = length-modify (on_skill f) s.skills i;
  rings = λ h. h;
}
on_target-KeepsParts f s (subagent_usage id) = record {
  ring = refl;
  windows = refl;
  skill_count = refl;
  rings = λ h. elim (Option-cases (lookup id s.subagents)) [
    | inl e ↦ rw e h
    | inr (stat, e) ↦ rw e (
        AllRings-insert id (on_subagent f stat) s.subagents
          (AllRings-lookup id s.subagents {stat = stat} h e) h)
  ];
}

on_targets-KeepsParts :
    (f : Usage → Usage) (s : Session) (ts : List UsageTarget) → KeepsParts s (on_targets f s ts)
unfolding on_targets
on_targets-KeepsParts f s [] = record {
  ring = refl;
  windows = refl;
  skill_count = refl;
  rings = λ h. h;
}
on_targets-KeepsParts f s (t ∷ ts) =
    KeepsParts-trans s (on_target f s t) (on_targets f (on_target f s t) ts)
      (on_target-KeepsParts f s t) (on_targets-KeepsParts f (on_target f s t) ts)

take_back-KeepsParts : (s : Session) (o : Option RequestUsage) → KeepsParts s (take_back s o)
unfolding take_back
take_back-KeepsParts s none = record {
  ring = refl;
  windows = refl;
  skill_count = refl;
  rings = λ h. h;
}
take_back-KeepsParts s (some r) = on_targets-KeepsParts _ s r.targets

apply_request_usage-KeepsParts :
    (s : Session) (id : String) (u : Usage) (targets : List UsageTarget)
    → KeepsParts s (apply_request_usage s id u targets)
unfolding apply_request_usage
apply_request_usage-KeepsParts s id u targets =
    let s₁ = take_back s (lookup id s.usage_by_request_id) in
    let k =
      KeepsParts-trans s s₁ _ (take_back-KeepsParts s (lookup id s.usage_by_request_id))
        (on_targets-KeepsParts _ s₁ targets) in
    record { ring = k.ring; windows = k.windows; skill_count = k.skill_count; rings = k.rings }

-- A report of a request keeps a session sound.
pub apply_request_usage-IsSound :
    {base : Usage} (s : Session) (id : String) (u : Usage) (targets : List UsageTarget)
    → IsSound base s
    → AllLive s targets
    → IsSound base (apply_request_usage s id u targets)
apply_request_usage-IsSound {base} s id u targets h l =
    let k = apply_request_usage-KeepsParts s id u targets in
    record {
      ring = rw k.ring h.ring;
      rings = k.rings h.rings;
      windows = rw (k.skill_count, k.windows) h.windows;
      balanced = apply_request_usage-Balances s id u targets h.balanced l;
    }

with_skill-IsSound :
    {base : Usage} (s : Session) (o : Option ℕ) (timestamp : ℕ) (model : String)
    → IsSound base s
    → IsSound base (with_skill s o timestamp model)
with_skill-IsSound {base} s none timestamp model h = h
with_skill-IsSound {base} s (some i) timestamp model h =
    let g = use_skill timestamp model in
    record {
      ring = h.ring;
      rings = h.rings;
      windows = rw (length-modify g s.skills i) h.windows;
      balanced =
          Balances-SameTotals s (record s { skills = modify g s.skills i })
            (record {
              total = refl;
              skills = skill_usages-modify g (λ st. refl) s.skills i;
              skill_count = omega (arith, length-modify g s.skills i);
              subagents = λ id. refl;
              subagent_keys = λ id k. k;
              ledger = refl;
            })
            h.balanced;
    }

with_skill-IsLive :
    (s : Session) (o : Option ℕ) (timestamp : ℕ) (model : String) (t : UsageTarget)
    → IsLive s t
    → IsLive (with_skill s o timestamp model) t
with_skill-IsLive s none timestamp model t l = l
with_skill-IsLive s (some i) timestamp model session_total l = tt
with_skill-IsLive s (some i) timestamp model (skill_usage j) l =
    omega (arith, length-modify (use_skill timestamp model) s.skills i)
with_skill-IsLive s (some i) timestamp model (subagent_usage id) l = l

skill_target-AllLive :
    {base : Usage} (s : Session) (actor : String) (timestamp : ℕ) (model : String)
    → IsSound base s
    → AllLive
        (with_skill s (lookup actor s.active_skills) timestamp model)
        (skill_target (lookup actor s.active_skills))
skill_target-AllLive {base} s actor timestamp model h =
    elim (Option-cases (lookup actor s.active_skills)) [
      | inl e ↦ rw e tt
      | inr (i, e) ↦ rw e (
        omega (
          arith,
          length-modify (use_skill timestamp model) s.skills i,
          AllBelow-lookup actor s.active_skills {i = i} h.windows e,
        ),
        tt,
      )
    ]

-- The usage of a turn keeps a session sound.
pub count_usage-IsSound :
    {base : Usage} (s : Session) (total : UsageTarget) (actor : String) (turn : Turn)
    (usage : Option Usage) (model : String)
    → IsSound base s
    → IsLive s total
    → IsSound base (count_usage s total actor turn usage model)
unfolding count_usage
count_usage-IsSound {base} s total actor turn none model h l = h
count_usage-IsSound {base} s total actor turn (some usage) model h l =
    elim (Bool-cases (is_empty turn.request_id)) [
      | inl e ↦ rw e h
      | inr e ↦
          let o = lookup actor s.active_skills in
          rw e (
            apply_request_usage-IsSound (with_skill s o turn.timestamp model) turn.request_id usage
              (total ∷ skill_target o) (with_skill-IsSound s o turn.timestamp model h)
              (
                with_skill-IsLive s o turn.timestamp model total l,
                skill_target-AllLive s actor turn.timestamp model h,
              ))
    ]

-- On a valid ring a turn is appended without a panic, and the ring stays valid.
pub append_turn-IsValid :
    (active : Option Turn) (buffer : TurnBuffer) (next : Turn)
    → IsValid buffer
    → (t : Turn) × (buffer' : TurnBuffer) × (append_turn active buffer next ≡ some (t, buffer'))
      × IsValid buffer'
unfolding append_turn
append_turn-IsValid none buffer next v = (next, buffer, refl, v)
append_turn-IsValid (some active) buffer next v = elim (Bool-cases (is_same_request active next)) [
  | inl same ↦ (merge active next, buffer, rw same refl, v)
  | inr other ↦ elim (Bool-cases (has_content active)) [
    | inl full ↦ (
      next,
      after_push buffer active,
      rw (other, full, push-after_push buffer active v) refl,
      after_push-IsValid buffer active v,
    )
    | inr empty ↦ (next, buffer, rw (other, empty) refl, v)
  ]
]

stamp-SameParts : (s : Session) (timestamp : ℕ) → SameParts s (stamp s timestamp)
unfolding stamp
stamp-SameParts s timestamp = ground arith

pub ring-IsSound :
    {base : Usage} (s : Session) (active : Option Turn) (buffer : TurnBuffer)
    → IsValid buffer
    → IsSound base s
    → IsSound base (record s { turn_active = active; turns_finished = buffer })
ring-IsSound {base} s active buffer v h = record {
  ring = v;
  rings = h.rings;
  windows = h.windows;
  balanced =
      Balances-SameTotals s (record s { turn_active = active; turns_finished = buffer })
        (record {
          total = refl;
          skills = λ i. refl;
          skill_count = omega arith;
          subagents = λ id. refl;
          subagent_keys = λ id k. k;
          ledger = refl;
        })
        h.balanced;
}

add_turn_with-IsSound :
    {base : Usage} (s : Session) (turn : Turn) (meta : Meta)
    → IsSound base s
    → (s' : Session) × (add_turn_with s turn meta ≡ some s') × IsSound base s'
unfolding add_turn_with
add_turn_with-IsSound {base} s turn meta h =
    let s₀ = record s { meta = Meta.update s.meta meta } in
    let s₁ = stamp s₀ turn.timestamp in
    let h₁ : IsSound base s₁ =
      IsSound-SameParts s₀ s₁ (stamp-SameParts s₀ turn.timestamp)
        (IsSound-SameParts s s₀ (ground arith) h) in
    let s₂ = count_usage s₁ session_total "" turn turn.usage meta.model in
    let h₂ = count_usage-IsSound s₁ session_total "" turn turn.usage meta.model h₁ tt in
    let b = not (is_empty turn.stop_reason) && not (str_eq turn.stop_reason stop_reason_tool_use) in
    let s₃ = if b then close_skill_window s₂ "" turn.timestamp else s₂ in
    let h₃ : IsSound base s₃ = elim (Bool-cases b) [
      | inl e ↦ rw e (close_skill_window-IsSound s₂ "" turn.timestamp h₂)
      | inr e ↦ rw e h₂
    ] in
    let (t, buffer, ran, v) = append_turn-IsValid s₃.turn_active s₃.turns_finished turn h₃.ring in
    (
      record s₃ { turn_active = some t; turns_finished = buffer },
      ap
          (Option.map
            (λ (p : Turn × TurnBuffer). record s₃ { turn_active = some p.0; turns_finished = p.1 }))
          ran,
      ring-IsSound s₃ (some t) buffer v h₃,
    )

pub add_turn-with :
    (s : Session) (turn : Turn) (meta : Meta)
    → turn.meta ≡ some meta
    → add_turn s turn ≡ add_turn_with s turn meta
unfolding add_turn
add_turn-with s turn meta e =
    ap
      (λ (o : Option Meta). elim o as (λ x. Option Session) [
        | none ↦ none
        | some m ↦ add_turn_with s turn m
      ])
      e

-- On a sound session a turn with meta data is added without a panic, and the session stays sound:
-- its rings valid, its pointers inside it, and every usage total the sum of the last reports of the
-- requests that target it.
pub add_turn-IsSound :
    {base : Usage} (s : Session) (turn : Turn) (meta : Meta)
    → turn.meta ≡ some meta
    → IsSound base s
    → (s' : Session) × (add_turn s turn ≡ some s') × IsSound base s'
add_turn-IsSound {base} s turn meta e h =
    let (s', ran, h') = add_turn_with-IsSound s turn meta h in
    (s', add_turn-with s turn meta e ∙ ran, h')
