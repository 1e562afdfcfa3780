-- ===== src/Session/Subagents.antt =====
-- session/session.go: a turn folded into the stats of its subagent.
use mathlib.Core.Option
use peek_mcp.Prelude.{
  ℕ, String, List, [], ◌∷◌, Option, none, some, length, leb, is_empty, ◌==◌, if◌then◌else◌,
}
use peek_mcp.Prelude.Words.{lt64}
use peek_mcp.Prelude.Assoc.{lookup, insert}
use peek_mcp.Session.Event.{Event, SubagentPayload, is_spawned}
use peek_mcp.Session.Meta.{Meta}
use peek_mcp.Session.Turn.{Turn}
use peek_mcp.Session.TurnBuffer
use peek_mcp.Session.TurnBuffer.{TurnBuffer}
use peek_mcp.Session.Usage.{zero_usage}
use peek_mcp.Session.State.{
  Session, SubagentStat, subagent_usage, max_subagent_stats, min_subagent_turn_depth,
}
use peek_mcp.Session.Touches.{add_file_touches}
use peek_mcp.Session.Turns.{append_turn, apply_tool_results}
use peek_mcp.Session.AddTurn.{count_usage}

abbrev pub new_subagent : TurnBuffer → SubagentStat
new_subagent turns = record {
  agent_type = "";
  description = "";
  first_active = 0;
  last_active = 0;
  model = "";
  touched_files = [];
  turn_active = none;
  turns = turns;
  usage = zero_usage;
}

-- `max(s.TurnsFinished.capacity, minSubagentTurnDepth)` of signed numbers.
abbrev pub subagent_depth : Session → ℕ
subagent_depth s =
    let capacity = s.turns_finished.capacity in
    if lt64 capacity min_subagent_turn_depth then min_subagent_turn_depth else capacity

abbrev pub model_of : Option Meta → String
model_of none = ""
model_of (some meta) = meta.model

-- `applyToolResults`, and `appendTurn` of a turn with a role; `none` is a panic of the ring.
unfoldable pub fold_turn : SubagentStat → Turn → Option SubagentStat
fold_turn stat turn =
    let (active, turns) = apply_tool_results stat.turn_active stat.turns turn.tool_results in
    let marked = record stat { turn_active = active; turns = turns } in
    if is_empty turn.role
    then some marked
    else Option.map (λ (next, buffer). record marked { turn_active = some next; turns = buffer })
        (append_turn active turns turn)

abbrev pub stamp_subagent : SubagentStat → ℕ → SubagentStat
stamp_subagent stat timestamp = if timestamp == 0 then stat else record stat {
  first_active = if stat.first_active == 0 then timestamp else stat.first_active;
  last_active = timestamp;
}

abbrev pub describe_with : SubagentStat → Option SubagentPayload → SubagentStat
describe_with stat none = stat
describe_with stat (some payload) = record stat {
  agent_type = payload.agent_type;
  description = payload.description;
}

-- The loop over the events: a spawn names the type and the description.
unfoldable pub describe : SubagentStat → List Event → SubagentStat
describe stat [] = stat
describe stat (event ∷ events) =
    describe (if is_spawned event.kind then describe_with stat event.subagent else stat) events

-- The model, the times, the description and the touched files of a turn.
unfoldable pub note_turn : Turn → SubagentStat → SubagentStat
note_turn turn folded =
    let model = model_of turn.meta in
    let named = if is_empty model then folded else record folded { model = model } in
    let described = describe (stamp_subagent named turn.timestamp) turn.events in
    record described { touched_files = add_file_touches described.touched_files turn.file_touches }

-- What a turn changes in the stat, but for its usage.
unfoldable pub update_stat : SubagentStat → Turn → Option SubagentStat
update_stat stat turn = Option.map (note_turn turn) (fold_turn stat turn)

-- The stat of the turn's subagent; a new one where there is room. The inner `none` drops the turn.
unfoldable pub find_stat : Session → String → Option (Option SubagentStat)
find_stat s id = elim (lookup id s.subagents) [
  | some stat ↦ some (some stat)
  | none ↦
      if leb max_subagent_stats (length s.subagents)
      then some none
      else Option.map (λ turns. some (new_subagent turns)) (TurnBuffer.new (subagent_depth s))
]

-- `s.AddSubagentTurn(turn)`; `none` is a panic.
unfoldable pub add_subagent_turn : Session → Turn → Option Session
unfolding find_stat update_stat
add_subagent_turn s turn = elim (find_stat s turn.subagent_id) [
  | none ↦ none
  | some none ↦ some s
  | some (some stat) ↦
      Option.map
        (λ stat'.
          count_usage (record s { subagents = insert turn.subagent_id stat' s.subagents })
            (subagent_usage turn.subagent_id) turn.subagent_id turn turn.usage (model_of turn.meta))
        (update_stat stat turn)
]
