-- ===== src/Store/AddTurn.antt =====
-- session/store.go: a turn of a transcript enters the store. `none` is a panic. A session that is
-- read from the map is worked on and written back under its id; nothing reads the map in between.
use mathlib.Core.Option
use peek_mcp.Prelude.{
  ℕ, String, true, false, not, ◌&&◌, [], Option, none, some, str_eq, is_empty, ltb, ◌==◌,
  if◌then◌else◌,
}
use peek_mcp.Prelude.Assoc.{lookup, insert}
use peek_mcp.Prelude.Text.{trim_space, to_lower, has_prefix, first_line, rune_count, take_runes}
use peek_mcp.Events.{session_created, turn_added, event_added, usage_updated}
use peek_mcp.Session.Event.{Counters, model_changed, blank_event}
use peek_mcp.Session.EventBuffer
use peek_mcp.Session.Meta.{Meta, role_user}
use peek_mcp.Session.Turn.{Turn, is_filled, is_usage_signal}
use peek_mcp.Session.TurnBuffer
use peek_mcp.Session.TurnBuffer.{TurnBuffer}
use peek_mcp.Session.Usage.{zero_usage}
use peek_mcp.Session.State.{
  Session, unset, snapshot, event_buffer_capacity, event_buffer_denial_budget, title_source_derived,
}
use peek_mcp.Session.Skills.{handle_prompt_boundary}
use peek_mcp.Session.Touches.{add_file_touches}
use peek_mcp.Session.Turns.{apply_tool_results}
use peek_mcp.Session.AddTurn.{add_turn}
use peek_mcp.Session.Subagents.{add_subagent_turn}
use peek_mcp.Session.Queries.{has_new_title}
use peek_mcp.Store.Env.{Env}
use peek_mcp.Store.State.{Store, publish}
use peek_mcp.Store.Actors.{append_event, append_events}
use peek_mcp.Store.Plan.{hydrate_plan_state, update_plan_content}

abbrev pub derived_title_max_runes : ℕ
derived_title_max_runes = 80

-- `deriveTitle(text)`
unfoldable pub derive_title : String → String
derive_title text =
    let line = trim_space (first_line text) in
    if has_prefix line "<"
    then ""
    else if has_prefix line "# AGENTS.md"
    then ""
    else if ltb derived_title_max_runes (rune_count line)
    then take_runes derived_title_max_runes line
    else line

abbrev pub empty_counters : Counters
empty_counters = record {
  model_changes = 0;
  permission_cancellations = 0;
  permission_denials = 0;
  permission_grants = 0;
  permission_mode_changes = 0;
  plan_alterations = 0;
  plan_rejections = 0;
  skills_invoked = 0;
  subagents_spawned = 0;
  turns = 0;
}

-- `&Session{Agent: agent, Events: …, Meta: Meta{SessionId: id}, TurnsFinished: …}`
unfoldable pub new_session : String → String → TurnBuffer → Session
new_session id agent ring = record {
  active_skills = [];
  current_prompt_id = "";
  plan_exit_seen = false;
  usage_by_request_id = [];
  agent = agent;
  counters = empty_counters;
  diff_base = "";
  diff_captured_at = 0;
  diff_output = "";
  diff_source = unset;
  diff_target = "";
  events = EventBuffer.new event_buffer_capacity event_buffer_denial_budget;
  file_path = "";
  has_diff_snapshot = false;
  idle = 0;
  last_active = 0;
  meta = record {
    session_id = id;
    cwd = "";
    git_branch = "";
    model = "";
    project = "";
    origin = none;
  };
  plan_content = "";
  plan_file_path = "";
  plan_revisions = [];
  skills = [];
  started_at = 0;
  subagents = [];
  title = "";
  title_source = "";
  total_usage = zero_usage;
  touched_files = [];
  turn_active = none;
  turns_finished = ring;
  uncommitted_diff = "";
}

module _ (env : Env) where
  unfoldable pub hydrate_base : Store env.Files → Session → Session
  hydrate_base s session = elim (env.read_diff_base s.files session.agent session.meta.session_id) [
    | none ↦ session
    | some base ↦ record session { diff_base = base.sha; diff_target = base.target }
  ]

  unfoldable pub hydrate_snapshot : Store env.Files → Session → Session
  hydrate_snapshot s session =
      elim (env.stat_diff_snapshot s.files session.agent session.meta.session_id) [
        | none ↦ session
        | some captured_at ↦ record session {
          has_diff_snapshot = true;
          diff_source = snapshot;
          diff_captured_at = captured_at;
        }
      ]

  -- `s.hydrateFromState(session)`
  unfoldable pub hydrate_from_state : Store env.Files → Session → Session
  unfolding hydrate_base hydrate_snapshot
  hydrate_from_state s session =
      if not s.has_state_dir
      then session
      else hydrate_plan_state env s (hydrate_snapshot s (hydrate_base s session))

  -- `s.getOrCreate(id, agent)`
  unfoldable pub get_or_create :
      ℕ → Store env.Files → String → String → Option (Store env.Files × Session)
  unfolding hydrate_from_state new_session
  get_or_create now s id agent = elim (lookup id s.sessions) [
    | some session ↦ some (s, session)
    | none ↦
        Option.map
          (λ ring.
            let session = hydrate_from_state s (new_session id agent ring) in
            (
              publish now session_created id agent
                  (record s { sessions = insert id session s.sessions }),
              session,
            ))
          (TurnBuffer.new s.depth)
  ]

  -- `s.setTitle(session, title, source)`
  unfoldable pub set_title : Store env.Files → Session → String → String → Store env.Files × Session
  set_title s session title source = (
    record s {
      plain_title_by_id =
          insert session.meta.session_id (to_lower env.lower (trim_space title))
            s.plain_title_by_id;
    },
    record session { title = title; title_source = source },
  )

  -- The title signal of `AddTurnBySessionId`.
  unfoldable pub add_title : Store env.Files → Session → Turn → Store env.Files × Session
  unfolding set_title
  add_title s session turn =
      let session' =
        if session.last_active == 0 && not (turn.timestamp == 0)
        then record session { last_active = turn.timestamp }
        else session in
      if has_new_title session' turn.custom_title turn.title_source
      then set_title s session' turn.custom_title turn.title_source
      else (s, session')

  -- The events, touches and tool results of a turn, after its prompt boundary.
  unfoldable pub add_signals :
      ℕ → Store env.Files → String → String → Session → Turn → Store env.Files × Session
  add_signals now s id agent session turn =
      let filed =
        if not (is_empty turn.file_path) && is_empty session.file_path
        then record session { file_path = turn.file_path }
        else session in
      let bounded =
        if str_eq turn.role role_user && not (is_empty (trim_space turn.text))
        then handle_prompt_boundary filed turn.prompt_id turn.timestamp
        else filed in
      let evented = append_events bounded turn.events in
      let s' = if is_filled turn.events then publish now event_added id agent s else s in
      let touched = record evented {
        touched_files = add_file_touches evented.touched_files turn.file_touches;
      } in
      let (active, finished) =
        apply_tool_results touched.turn_active touched.turns_finished turn.tool_results in
      (s', record touched { turn_active = active; turns_finished = finished })

  -- A session without a title takes one from the first prompt that gives one.
  unfoldable pub title_from_prompt : Store env.Files → Session → Turn → Store env.Files × Session
  unfolding set_title
  title_from_prompt s session turn =
      let derived = derive_title turn.text in
      if is_empty session.title
        && (str_eq turn.role role_user && not (is_empty turn.text))
        && not (is_empty derived)
      then set_title s session derived title_source_derived
      else (s, session)

  -- A change of the model is an event.
  unfoldable pub note_model :
      ℕ → Store env.Files → String → String → Session → Turn → Meta → Store env.Files × Session
  note_model now s id agent session turn meta =
      if not (is_empty meta.model)
        && not (is_empty session.meta.model)
        && not (str_eq meta.model session.meta.model)
      then (
        publish now event_added id agent s,
        append_event session (record (blank_event model_changed turn.timestamp) {
          model = some (record { from = session.meta.model; to = meta.model });
        }),
      )
      else (s, session)

  -- The chat turn itself; `turn.Meta.Model` panics on a nil pointer.
  unfoldable pub add_chat :
      ℕ → Store env.Files → String → String → Session → Turn → Option (Store env.Files × Session)
  unfolding title_from_prompt note_model
  add_chat now s id agent session turn = elim turn.meta [
    | none ↦ none
    | some meta ↦
        let (s₁, titled) = title_from_prompt s session turn in
        let (s₂, noted) = note_model now s₁ id agent titled turn meta in
        Option.map (λ added. (publish now turn_added id agent s₂, added)) (add_turn noted turn)
  ]

  -- What follows the plan content: a usage signal, a turn without a role, or a chat turn.
  unfoldable pub add_rest :
      ℕ → Store env.Files → String → String → Session → Turn → Option (Store env.Files × Session)
  unfolding add_chat
  add_rest now s id agent session turn =
      if is_usage_signal turn
      then elim turn.usage [
        | none ↦ none
        | some usage ↦
            some (publish now usage_updated id agent s, record session { total_usage = usage })
      ]
      else if is_empty turn.role
      then some (s, session)
      else add_chat now s id agent session turn

  -- The plan content of a turn; a plan signal without text ends here.
  unfoldable pub add_planned :
      ℕ → Store env.Files → String → String → Session → Turn → Option (Store env.Files × Session)
  unfolding add_rest
  add_planned now s id agent session turn =
      if is_empty turn.plan_file_path
      then add_rest now s id agent session turn
      else elim (update_plan_content env now s
          (record session { plan_file_path = turn.plan_file_path }) turn) [
            | none ↦ none
            | some (s', planned) ↦
                if is_empty turn.text
                then some (s', planned)
                else add_rest now s' id agent planned turn
          ]

  -- The body of `AddTurnBySessionId` on the session of the id.
  unfoldable pub add_to_session :
      ℕ → Store env.Files → String → String → Session → Turn → Option (Store env.Files × Session)
  unfolding add_title add_signals add_planned
  add_to_session now s id agent session turn =
      if not (is_empty turn.custom_title)
      then some (add_title s session turn)
      else (let (s', signalled) = add_signals now s id agent session turn in
          add_planned now s' id agent signalled turn)

  abbrev pub put_back : String → Store env.Files × Session → Store env.Files
  put_back id (s, session) = record s { sessions = insert id session s.sessions }

  -- `s.addSubagentTurn(id, turn)`; an unknown session drops the turn.
  unfoldable pub add_subagent_turn_by_session_id :
      ℕ → Store env.Files → String → Turn → Option (Store env.Files)
  add_subagent_turn_by_session_id now s id turn = elim (lookup id s.sessions) [
    | none ↦ some s
    | some session ↦
        let evented = append_events session turn.events in
        let s' = if is_filled turn.events then publish now event_added id session.agent s else s in
        let touched = record evented {
          touched_files = add_file_touches evented.touched_files turn.file_touches;
        } in
        Option.map (λ added. put_back id (s', added)) (add_subagent_turn touched turn)
  ]

  -- `s.AddTurnBySessionId(id, agent, turn)`
  unfoldable pub add_turn_by_session_id :
      ℕ → Store env.Files → String → String → Turn → Option (Store env.Files)
  unfolding get_or_create add_to_session add_subagent_turn_by_session_id
  add_turn_by_session_id now s id agent turn =
      if not (is_empty turn.subagent_id)
      then add_subagent_turn_by_session_id now s id turn
      else elim (get_or_create now s id agent) [
        | none ↦ none
        | some (s', session) ↦
            Option.map (put_back id) (add_to_session now s' id agent session turn)
      ]
