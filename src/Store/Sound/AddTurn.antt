-- ===== src/Store/Sound/AddTurn.antt =====
-- session/store.go: soundness under the part of `AddTurnBySessionId` that works on one session.
use mathlib.Core.Option
use peek_mcp.Prelude.{
  ℕ, ◌≡◌, refl, ap, ◌∙◌, String, true, false, not, ◌&&◌, Option, none, some, arith, is_empty,
  is_some, Bool-cases, inl, inr, if◌then◌else◌,
}
use peek_mcp.Events.{turn_added, usage_updated}
use peek_mcp.Session.Meta.{Meta}
use peek_mcp.Session.Turn
use peek_mcp.Session.Turn.{is_filled, is_usage_signal, meta_of_validate}
use peek_mcp.Session.Usage.{Usage}
use peek_mcp.Session.Usage.Laws.{IsWords}
use peek_mcp.Session.State.{Session}
use peek_mcp.Session.AddTurn.{add_turn}
use peek_mcp.Session.Sound.Turns.{add_turn-IsSound}
use peek_mcp.Store.Env.{Env}
use peek_mcp.Store.State.{Store, publish}
use peek_mcp.Store.AddTurn.{
  add_title, add_signals, title_from_prompt, note_model, add_chat, add_rest, add_planned,
  add_to_session,
}
use peek_mcp.Session.Sound.{IsSound}
use peek_mcp.Store.Sound.{Ends, reported}
use peek_mcp.Store.Sound.Steps.{Sound-SameParts}
use peek_mcp.Store.Sound.Keeps.{KeepsSessions-refl, KeepsSessions-trans, publish-KeepsSessions}
use peek_mcp.Store.Sound.Signals.{
  IsFine, base_of_signal, usage_signal-Sound, add_title-IsFine, title_from_prompt-IsFine,
  update_plan_content-IsFine, note_model-IsFine, add_signals-IsFine,
}

-- The counts of a turn's usage are 64-bit words.
abbrev pub UsageIsWords : Option Usage → Type 0
UsageIsWords none = Unit
UsageIsWords (some usage) = IsWords usage

-- There is a result, it is fine, and the total is the reported one, if there is one.
abbrev pub Works :
    {Files : Type 0} → Usage → Option Usage → Store Files → Option (Store Files × Session) → Type 0
Works {Files} base report s o =
    (r : Store Files × Session) × (base' : Usage) × (o ≡ some r)
    × IsFine base' s r
    × Ends report base base' r.1

Works-after :
    {Files : Type 0} {base : Usage} (report : Option Usage) (s : Store Files)
    (r : Store Files × Session) (o : Option (Store Files × Session))
    → IsFine base s r
    → Works base report r.0 o
    → Works base report s o
Works-after report s r o h (r', base', e, h', ends) = (
  r',
  base',
  e,
  record { keeps = KeepsSessions-trans s r.0 r'.0 h.keeps h'.keeps; sound = h'.sound },
  ends,
)

is_some-none : {A : Type 0} (o : Option A) → is_some o ≡ false → o ≡ none
is_some-none none e = refl
is_some-none (some a) e = absurd (ground (arith, e))

module _ (env : Env) (now : ℕ) (id agent : String) (turn : Turn.Turn) (meta : Meta)
    (m : turn.meta ≡ some meta) (w : UsageIsWords turn.usage) where
  add_chat-with :
      (s : Store env.Files) (session : Session)
      → let titled = title_from_prompt env s session turn in
        let noted = note_model env now titled.0 id agent titled.1 turn meta in
        add_chat env now s id agent session turn
        ≡ Option.map
            (λ added. (publish now turn_added id agent noted.0, added))
            (add_turn noted.1 turn)
  unfolding add_chat
  add_chat-with s session =
      let titled = title_from_prompt env s session turn in
      ap
        (λ (o : Option Meta). elim o as (λ x. Option (Store env.Files × Session)) [
          | none ↦ none
          | some meta ↦
              let noted = note_model env now titled.0 id agent titled.1 turn meta in
              Option.map (λ added. (publish now turn_added id agent noted.0, added))
                (add_turn noted.1 turn)
        ])
        m

  add_chat-Works :
      {base : Usage} (s : Store env.Files) (session : Session)
      → IsSound base session
      → Works base none s (add_chat env now s id agent session turn)
  add_chat-Works {base} s session h =
      let titled = title_from_prompt env s session turn in
      let noted = note_model env now titled.0 id agent titled.1 turn meta in
      let f = title_from_prompt-IsFine env s session turn h in
      let g = note_model-IsFine env now titled.0 id agent titled.1 turn meta f.sound in
      let (session', ran, h') = add_turn-IsSound noted.1 turn meta m g.sound in
      (
        (publish now turn_added id agent noted.0, session'),
        base,
        add_chat-with s session
            ∙ ap (Option.map (λ added. (publish now turn_added id agent noted.0, added))) ran,
        record {
          keeps =
              publish-KeepsSessions now turn_added id agent s noted.0
                (KeepsSessions-trans s titled.0 noted.0 f.keeps g.keeps);
          sound = h';
        },
        refl,
      )

  -- The usage of `add_rest`, signal or not.
  signal-Works :
      {base : Usage} (s : Store env.Files) (session : Session) (usage : Option Usage)
      → is_some usage ≡ true
      → UsageIsWords usage
      → IsSound base session
      → Works base usage s (elim usage [
        | none ↦ none
        | some usage ↦
            some (publish now usage_updated id agent s, record session { total_usage = usage })
      ])
  signal-Works s session none e v h = absurd (ground (arith, e))
  signal-Works s session (some usage) e v h = (
    (publish now usage_updated id agent s, record session { total_usage = usage }),
    base_of_signal session usage,
    refl,
    record {
      keeps = publish-KeepsSessions now usage_updated id agent s s (KeepsSessions-refl s);
      sound = usage_signal-Sound session usage v h;
    },
    refl,
  )

  same-Works :
      {base : Usage} (s : Store env.Files) (session : Session)
      → IsSound base session
      → Works base none s (some (s, session))
  same-Works {base} s session h =
      ((s, session), base, refl, record { keeps = KeepsSessions-refl s; sound = h }, refl)

  -- The report of a turn that gets as far as its usage.
  abbrev last_report : Option Usage
  last_report = if is_empty turn.role then turn.usage else none

  add_rest-Works :
      {base : Usage} (s : Store env.Files) (session : Session)
      → IsSound base session
      → Works base last_report s (add_rest env now s id agent session turn)
  unfolding add_rest is_usage_signal
  add_rest-Works {base} s session h = elim (Bool-cases (is_empty turn.role)) [
    | inr e ↦ elim (Bool-cases (is_some turn.usage)) [
      | inl f ↦ rw (e, f) (add_chat-Works s session h)
      | inr f ↦ rw (e, f) (add_chat-Works s session h)
    ]
    | inl e ↦ elim (Bool-cases (is_some turn.usage)) [
      | inl f ↦ rw (e, f) (signal-Works s session turn.usage f w h)
      | inr f ↦ rw (e, f, is_some-none turn.usage f) (same-Works s session h)
    ]
  ]

  -- The report of a turn that is not a title.
  abbrev planned_report : Option Usage
  planned_report =
      if not (is_empty turn.plan_file_path) && is_empty turn.text then none else last_report

  add_planned-Works :
      {base : Usage} (s : Store env.Files) (session : Session)
      → IsSound base session
      → Works base planned_report s (add_planned env now s id agent session turn)
  unfolding add_planned
  add_planned-Works s session h = elim (Bool-cases (is_empty turn.plan_file_path)) [
    | inl e ↦ rw e (add_rest-Works s session h)
    | inr e ↦
        let session' = record session { plan_file_path = turn.plan_file_path } in
        let (r, ran, f) =
          update_plan_content-IsFine env now s session' turn meta m
            (Sound-SameParts session session' (ground arith) h) in
        elim (Bool-cases (is_empty turn.text)) [
          | inl g ↦ rw (e, ran, g) (Works-after none s r _ f (same-Works r.0 r.1 f.sound))
          | inr g ↦
              rw (e, ran, g) (Works-after last_report s r _ f (add_rest-Works r.0 r.1 f.sound))
        ]
  ]

  pub add_to_session-Works :
      {base : Usage} (s : Store env.Files) (session : Session)
      → is_empty turn.subagent_id ≡ true
      → IsSound base session
      → Works base (reported turn) s (add_to_session env now s id agent session turn)
  unfolding add_to_session reported
  add_to_session-Works {base} s session own h = elim (Bool-cases (is_empty turn.custom_title)) [
    | inr e ↦
        rw (own, e)
          (add_title env s session turn, base, refl, add_title-IsFine env s session turn h, refl)
    | inl e ↦
        let r = add_signals env now s id agent session turn in
        let f = add_signals-IsFine env now s id agent session turn h in
        rw (own, e) (Works-after planned_report s r _ f (add_planned-Works r.0 r.1 f.sound))
  ]
