-- ===== src/Store/Actors.antt =====
-- session/store.go: the actor of a subagent's events. A spawn and a result name the same tool use;
-- whichever comes second gives the agent id to the other.
use peek_mcp.Prelude.{
  String, not, ◌&&◌, List, [], ◌∷◌, Option, none, some, map, str_eq, is_empty, if◌then◌else◌,
}
use peek_mcp.Session.Event.{
  Event, EventKind, SubagentPayload, subagent_result, subagent_spawned, is_spawned, is_result,
}
use peek_mcp.Session.State.{Session}
use peek_mcp.Session.Skills.{add_event}

-- The agent id of a spawn with the tool use.
spawn_id : String → Event → Option String
spawn_id tool_use_id seen = elim seen.subagent [
  | none ↦ none
  | some payload ↦
      if is_spawned seen.kind && str_eq payload.tool_use_id tool_use_id
      then some payload.agent_id
      else none
]

-- The loop over the events of the `EventKindSubagentResult` case, up to its `return`.
unfoldable pub find_spawn : String → List Event → Option String
unfolding spawn_id
find_spawn tool_use_id [] = none
find_spawn tool_use_id (seen ∷ events) = elim (spawn_id tool_use_id seen) [
  | some agent_id ↦ some agent_id
  | none ↦ find_spawn tool_use_id events
]

abbrev pub with_actor : Event → SubagentPayload → String → Event
with_actor event payload agent_id = record event {
  actor = agent_id;
  subagent = some (record payload { agent_id = agent_id });
}

-- One round of the loop of the `EventKindSubagentSpawned` case: a result of the tool use that has
-- no agent id gets it.
claim_with : String → String → Event → Option SubagentPayload → Event
claim_with tool_use_id agent_id seen none = seen
claim_with tool_use_id agent_id seen (some payload) =
    if is_result seen.kind && is_empty payload.agent_id && str_eq payload.tool_use_id tool_use_id
    then with_actor seen payload agent_id
    else seen

unfoldable pub claim : String → String → Event → Event
unfolding claim_with
claim tool_use_id agent_id seen = claim_with tool_use_id agent_id seen seen.subagent

resolve_result : Event → SubagentPayload → Session → Event
unfolding find_spawn
resolve_result event payload session =
    if not (is_empty payload.agent_id)
    then (if is_empty event.actor then record event { actor = payload.agent_id } else event)
    else elim (find_spawn payload.tool_use_id session.events.items) [
      | none ↦ event
      | some agent_id ↦ with_actor event payload agent_id
    ]

claim_results : SubagentPayload → Session → Session
unfolding claim
claim_results payload session = if is_empty payload.agent_id then session else record session {
  events = record session.events {
    items = map (claim payload.tool_use_id payload.agent_id) session.events.items;
  };
}

resolve_by : EventKind → Event → SubagentPayload → Session → Event × Session
unfolding resolve_result claim_results
resolve_by subagent_result event payload session = (resolve_result event payload session, session)
resolve_by subagent_spawned event payload session = (event, claim_results payload session)
resolve_by _ event payload session = (event, session)

-- `resolveSubagentActor(event, session)`: the event and the session after its writes.
unfoldable pub resolve_subagent_actor : Event → Session → Event × Session
unfolding resolve_by
resolve_subagent_actor event session = elim event.subagent [
  | none ↦ (event, session)
  | some payload ↦ resolve_by event.kind event payload session
]

-- `s.appendEvent(session, event)`
unfoldable pub append_event : Session → Event → Session
unfolding resolve_subagent_actor
append_event session event =
    let (event', session') = resolve_subagent_actor event session in add_event session' event'

-- The loop over the events of a turn.
unfoldable pub append_events : Session → List Event → Session
unfolding append_event
append_events session [] = session
append_events session (event ∷ events) = append_events (append_event session event) events
