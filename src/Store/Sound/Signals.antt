-- ===== src/Store/Sound/Signals.antt =====
-- session/store.go: soundness under the signals of a turn, which are its title, its plan, its events,
-- touches and tool results, and its usage.
use peek_mcp.Prelude.{
  ℕ, ◌≡◌, refl, sym, String, Bool, true, false, not, ◌&&◌, some, arith, str_eq, is_empty,
  Bool-cases, Option-cases, inl, inr, if◌then◌else◌,
}
use peek_mcp.Prelude.Text.{trim_space}
use peek_mcp.Events.{event_added}
use peek_mcp.Session.Event.{model_changed, blank_event}
use peek_mcp.Session.Meta.{Meta, role_user}
use peek_mcp.Session.Turn.{Turn, is_filled}
use peek_mcp.Session.Usage.{Usage}
use peek_mcp.Session.Usage.Laws.{IsWords, minus, plus, plus-minus}
use peek_mcp.Session.State.{Session, UsageTarget, session_total, skill_usage, subagent_usage}
use peek_mcp.Session.Skills.{handle_prompt_boundary}
use peek_mcp.Session.Touches.{add_file_touches}
use peek_mcp.Session.Turns.{apply_tool_results}
use peek_mcp.Session.Turns.Results.{apply_tool_results-size}
use peek_mcp.Session.Requests.Targets.{usage_at}
use peek_mcp.Session.Requests.Charges.{charged}
use peek_mcp.Session.Requests.Ledger.{Balances, Extends, EntriesLive-Extends, base_at}
use peek_mcp.Session.Sound.Events.{handle_prompt_boundary-IsSound}
use peek_mcp.Session.Sound.Turns.{ring-IsSound}
use peek_mcp.Store.Env.{Env}
use peek_mcp.Store.State.{Store, publish}
use peek_mcp.Store.Actors.{append_event, append_events}
use peek_mcp.Store.Plan.{set_plan_content, update_from_worktree, update_plan_content}
use peek_mcp.Store.AddTurn.{set_title, add_title, add_signals, title_from_prompt, note_model}
use peek_mcp.Session.Sound.{IsSound}
use peek_mcp.Store.Sound.Steps.{
  Sound-SameParts, Sound-if, append_event-Sound, append_events-Sound, set_plan_content-Sound,
}
use peek_mcp.Store.Sound.Keeps.{
  KeepsSessions, KeepsSessions-refl, publish-KeepsSessions, set_plan_content-KeepsSessions,
}

-- A step on one session: the store keeps its sessions, and the session is sound.
pub record IsFine {Files : Type 0} (base : Usage) (s : Store Files) (r : Store Files × Session)
    : Type 0 where
  pub keeps : KeepsSessions s r.0
  pub sound : IsSound base r.1

IsFine-if :
    {Files : Type 0} {base : Usage} (s : Store Files) (b : Bool) (x y : Store Files × Session)
    → IsFine base s x
    → IsFine base s y
    → IsFine base s (if b then x else y)
IsFine-if s true x y h k = h
IsFine-if s false x y h k = k

pub KeepsSessions-if :
    {Files : Type 0} (s : Store Files) (b : Bool) (x y : Store Files)
    → KeepsSessions s x
    → KeepsSessions s y
    → KeepsSessions s (if b then x else y)
KeepsSessions-if s true x y h k = h
KeepsSessions-if s false x y h k = k

tool_results-Sound :
    {base : Usage} (session : Session) (turn : Turn)
    → IsSound base session
    → let (active, finished) =
        apply_tool_results session.turn_active session.turns_finished turn.tool_results in
      IsSound base (record session { turn_active = active; turns_finished = finished })
tool_results-Sound session turn h =
    let (active, finished) =
      apply_tool_results session.turn_active session.turns_finished turn.tool_results in
    let (c, n) =
      apply_tool_results-size session.turn_active session.turns_finished turn.tool_results in
    let v = h.ring in
    ring-IsSound session active finished
      (record { positive = rw c v.positive; signed = rw c v.signed; within = rw (c, n) v.within }) h

-- A usage signal replaces the total; what the ledger does not account for is the new base.
usage_signal-total :
    (session : Session) (base usage : Usage) (t : UsageTarget)
    → IsWords usage
    → Balances base session
    → usage_at t (record session { total_usage = usage })
      ≡ plus
          (base_at (minus usage (charged session_total session.usage_by_request_id)) t)
          (charged t session.usage_by_request_id)
unfolding usage_at
usage_signal-total session base usage session_total w b =
    sym (plus-minus usage (charged session_total session.usage_by_request_id) w)
usage_signal-total session base usage (skill_usage i) w b = b.total (skill_usage i)
usage_signal-total session base usage (subagent_usage id) w b = b.total (subagent_usage id)

usage_signal-Extends :
    (session : Session) (usage : Usage) → Extends session (record session { total_usage = usage })
usage_signal-Extends session usage session_total h = h
usage_signal-Extends session usage (skill_usage i) h = h
usage_signal-Extends session usage (subagent_usage id) h = h

-- The base of a session's total after a usage signal.
abbrev pub base_of_signal : Session → Usage → Usage
base_of_signal session usage = minus usage (charged session_total session.usage_by_request_id)

pub usage_signal-Sound :
    {base : Usage} (session : Session) (usage : Usage)
    → IsWords usage
    → IsSound base session
    → IsSound (base_of_signal session usage) (record session { total_usage = usage })
usage_signal-Sound {base} session usage w h = record {
  ring = h.ring;
  rings = h.rings;
  windows = h.windows;
  balanced = record {
    live =
        EntriesLive-Extends session (record session { total_usage = usage })
          (usage_signal-Extends session usage) session.usage_by_request_id h.balanced.live;
    total = λ t. usage_signal-total session base usage t w h.balanced;
  };
}

module _ (env : Env) where
  pub add_title-IsFine :
      {base : Usage} (s : Store env.Files) (session : Session) (turn : Turn)
      → IsSound base session
      → IsFine base s (add_title env s session turn)
  unfolding add_title set_title
  add_title-IsFine s session turn h = record {
    keeps = ground arith;
    sound = Sound-SameParts session (add_title env s session turn).1 (ground arith) h;
  }

  pub title_from_prompt-IsFine :
      {base : Usage} (s : Store env.Files) (session : Session) (turn : Turn)
      → IsSound base session
      → IsFine base s (title_from_prompt env s session turn)
  unfolding title_from_prompt set_title
  title_from_prompt-IsFine s session turn h = record {
    keeps = ground arith;
    sound = Sound-SameParts session (title_from_prompt env s session turn).1 (ground arith) h;
  }

  set_plan_content-IsFine :
      {base : Usage} (now : ℕ) (s : Store env.Files) (content : String) (session : Session)
      (timestamp : ℕ)
      → IsSound base session
      → IsFine base s (set_plan_content env now s content session timestamp)
  set_plan_content-IsFine now s content session timestamp h = record {
    keeps = set_plan_content-KeepsSessions env now s content session timestamp;
    sound = set_plan_content-Sound env now s content session timestamp h;
  }

  update_from_worktree-IsFine :
      {base : Usage} (now : ℕ) (s : Store env.Files) (session : Session) (turn : Turn) (meta : Meta)
      → IsSound base session
      → IsFine base s (update_from_worktree env now s session turn meta)
  unfolding update_from_worktree
  update_from_worktree-IsFine now s session turn meta h = elim (Bool-cases (is_empty meta.cwd)) [
    | inl e ↦ rw e (record { keeps = KeepsSessions-refl s; sound = h })
    | inr e ↦
        let alt = env.worktree_plan meta.cwd turn.plan_file_path in
        elim (Option-cases (env.read_file s.files alt)) [
          | inl f ↦ rw (e, f) (record { keeps = KeepsSessions-refl s; sound = h })
          | inr (content, f) ↦
              let session' = record session { plan_file_path = alt } in
              rw (e, f)
                (set_plan_content-IsFine now s content session' turn.timestamp
                  (Sound-SameParts session session' (ground arith) h))
        ]
  ]

  pub update_plan_content-IsFine :
      {base : Usage} (now : ℕ) (s : Store env.Files) (session : Session) (turn : Turn) (meta : Meta)
      → turn.meta ≡ some meta
      → IsSound base session
      → (r : Store env.Files × Session) × (update_plan_content env now s session turn ≡ some r)
        × IsFine base s r
  unfolding update_plan_content
  update_plan_content-IsFine now s session turn meta m h =
      elim (Bool-cases (is_empty turn.plan_content)) [
        | inr e ↦ (
          set_plan_content env now s turn.plan_content session turn.timestamp,
          rw e refl,
          set_plan_content-IsFine now s turn.plan_content session turn.timestamp h,
        )
        | inl e ↦ elim (Option-cases (env.read_file s.files turn.plan_file_path)) [
          | inr (content, f) ↦ (
            set_plan_content env now s content session turn.timestamp,
            rw (e, f) refl,
            set_plan_content-IsFine now s content session turn.timestamp h,
          )
          | inl f ↦ (
            update_from_worktree env now s session turn meta,
            rw (e, f, m) refl,
            update_from_worktree-IsFine now s session turn meta h,
          )
        ]
      ]

  pub note_model-IsFine :
      {base : Usage} (now : ℕ) (s : Store env.Files) (id agent : String) (session : Session)
      (turn : Turn) (meta : Meta)
      → IsSound base session
      → IsFine base s (note_model env now s id agent session turn meta)
  unfolding note_model
  note_model-IsFine now s id agent session turn meta h =
      let event = record (blank_event model_changed turn.timestamp) {
        model = some (record { from = session.meta.model; to = meta.model });
      } in
      IsFine-if s
        (not (is_empty meta.model)
          && not (is_empty session.meta.model)
          && not (str_eq meta.model session.meta.model))
        (publish now event_added id agent s, append_event session event) (s, session)
        (record {
          keeps = publish-KeepsSessions now event_added id agent s s (KeepsSessions-refl s);
          sound = append_event-Sound session event h;
        })
        (record { keeps = KeepsSessions-refl s; sound = h })

  -- The `if` of a turn's file path and that of its prompt boundary.
  bounded-Sound :
      {base : Usage} (session : Session) (turn : Turn) (has_path has_prompt : Bool)
      → IsSound base session
      → let filed = if has_path then record session { file_path = turn.file_path } else session in
        IsSound base
          (if has_prompt then handle_prompt_boundary filed turn.prompt_id turn.timestamp else filed)
  bounded-Sound session turn has_path has_prompt h =
      let named = record session { file_path = turn.file_path } in
      let filed = if has_path then named else session in
      let h' = Sound-if has_path named session (Sound-SameParts session named (ground arith) h) h in
      Sound-if has_prompt (handle_prompt_boundary filed turn.prompt_id turn.timestamp) filed
        (handle_prompt_boundary-IsSound filed turn.prompt_id turn.timestamp h') h'

  pub add_signals-IsFine :
      {base : Usage} (now : ℕ) (s : Store env.Files) (id agent : String) (session : Session)
      (turn : Turn)
      → IsSound base session
      → IsFine base s (add_signals env now s id agent session turn)
  unfolding add_signals
  add_signals-IsFine now s id agent session turn h =
      let has_path = not (is_empty turn.file_path) && is_empty session.file_path in
      let has_prompt = str_eq turn.role role_user && not (is_empty (trim_space turn.text)) in
      let filed = if has_path then record session { file_path = turn.file_path } else session in
      let bounded =
        if has_prompt then handle_prompt_boundary filed turn.prompt_id turn.timestamp else filed in
      let evented = append_events bounded turn.events in
      let touched = record evented {
        touched_files = add_file_touches evented.touched_files turn.file_touches;
      } in
      let evented-Sound =
        append_events-Sound bounded turn.events
          (bounded-Sound session turn has_path has_prompt h) in
      record {
        keeps =
            KeepsSessions-if s (is_filled turn.events) (publish now event_added id agent s) s
              (publish-KeepsSessions now event_added id agent s s (KeepsSessions-refl s))
              (KeepsSessions-refl s);
        sound =
            tool_results-Sound touched turn
              (Sound-SameParts evented touched (ground arith) evented-Sound);
      }
