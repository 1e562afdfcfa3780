-- ===== src/Watcher/Subagents.antt =====
-- watcher/watcher.go: the reading of journals and of the metadata of sub-agents. `none` is a panic.
use Prim.Native.String.{len, slice}
use mathlib.Core.Option
use peek_mcp.Prelude.{
  ℕ, ◌*◌, ◌+◌, String, false, not, ◌||◌, List, [], ◌∷◌, Option, none, some, str_eq, is_empty,
  is_some, ltb, if◌then◌else◌,
}
use peek_mcp.Prelude.Assoc.{lookup, insert}
use peek_mcp.Prelude.Text.{has_prefix, trim_prefix, trim_suffix}
use peek_mcp.Prelude.Paths.{base, dir, join}
use Prim.Native.String.{◌++◌ as append_text}
use peek_mcp.Session.Event.{Event, SubagentPayload, subagent_result, subagent_spawned, blank_event}
use peek_mcp.Session.Meta.{blank_meta}
use peek_mcp.Session.Turn.{Turn, blank_turn}
use peek_mcp.Store.Env.{Env}
use peek_mcp.Store.State.{Store}
use peek_mcp.Store.AddTurn.{add_turn_by_session_id}
use peek_mcp.Watcher.Lines.{read_from}
use peek_mcp.Watcher.Roots.{agent_file_prefix, meta_json_suffix, subagents_root_dir}
use peek_mcp.Watcher.State.{LineParser, WatchedFile, Watcher, found_or}
use peek_mcp.Watcher.Disk.{Disk, SubagentMeta, JournalRecord, WorkflowAgent}

-- `maxJournalResultBytes`
abbrev pub max_journal_result_bytes : ℕ
max_journal_result_bytes = 32 * 1024

label_of : String → List WorkflowAgent → String
label_of agent_id [] = ""
label_of agent_id (agent ∷ agents) =
    if str_eq agent.agent_id agent_id then agent.label else label_of agent_id agents

label_in : Disk → String → Option (List ℕ) → String
unfolding label_of
label_in disk agent_id none = ""
label_in disk agent_id (some bytes) = elim (disk.workflow_agents bytes) [
  | none ↦ ""
  | some agents ↦ label_of agent_id agents
]

-- `workflowAgentLabel(metaPath, agentId, root)`
unfoldable pub workflow_agent_label : Disk → String → String → String → String
unfolding label_in
workflow_agent_label disk meta_path agent_id root =
    let run_dir = base (dir meta_path) in
    if not (has_prefix run_dir "wf_")
    then ""
    else label_in disk agent_id
        (disk.content (join (join root "workflows") (append_text run_dir ".json")))

-- The turn of an event of a sub-agent.
abbrev pub subagent_turn : String → Event → Turn
subagent_turn session_id event = record blank_turn {
  events = event ∷ [];
  subagent_id = event.actor;
  meta = some (blank_meta session_id);
}

-- `content[:maxJournalResultBytes]` of a longer result; a cut inside a character keeps the whole
-- characters.
abbrev pub journal_content : String → String
journal_content content =
    if ltb max_journal_result_bytes (len content)
    then slice content 0 max_journal_result_bytes
    else content

abbrev journal_payload : JournalRecord → SubagentPayload
journal_payload found = record {
  agent_id = found.agent_id;
  agent_type = "";
  content = journal_content found.result;
  description = "";
  is_error = false;
  spawn_depth = 0;
  tool_use_id = "";
}

-- The event of a record of a journal.
abbrev pub result_event : ℕ → JournalRecord → Event
result_event mod_time found = record (blank_event subagent_result mod_time) {
  actor = found.agent_id;
  subagent = some (journal_payload found);
}

abbrev meta_payload : Disk → String → String → String → SubagentMeta → SubagentPayload
meta_payload disk path agent_id root meta = record {
  agent_id = agent_id;
  agent_type = meta.agent_type;
  content = "";
  description =
      if is_empty meta.description
      then workflow_agent_label disk path agent_id root
      else meta.description;
  is_error = false;
  spawn_depth = meta.spawn_depth;
  tool_use_id = meta.tool_use_id;
}

-- The id of the agent in the name of its file.
abbrev pub agent_id_of : String → String
agent_id_of path = trim_suffix (trim_prefix (base path) agent_file_prefix) meta_json_suffix

-- The event of the metadata of a sub-agent.
abbrev pub spawn_event : Disk → String → String → String → ℕ → SubagentMeta → Event
spawn_event disk path agent_id root mod_time meta = record (blank_event subagent_spawned mod_time) {
  actor = agent_id;
  subagent = some (meta_payload disk path agent_id root meta);
}

module _ (env : Env) (P : LineParser) where
  abbrev pub store_in : Watcher env.Files P → Store env.Files → Watcher env.Files P
  store_in w store = record w { store = store }

  -- A line of `readJournal`, for the store before it.
  unfoldable pub read_record :
      Disk → ℕ → String → String → ℕ → Store env.Files → List ℕ → Option (Store env.Files)
  read_record disk now agent session_id mod_time store line = elim (disk.journal_record line) [
    | none ↦ some store
    | some found ↦
        if not (str_eq found.type "result") || is_empty found.agent_id
        then some store
        else add_turn_by_session_id env now store session_id agent
            (subagent_turn session_id (result_event mod_time found))
  ]

  -- `w.files[path]`, or a file without a parser.
  abbrev pub journal_of : Watcher env.Files P → String → WatchedFile P
  journal_of w path = found_or (lookup path w.files) (record { offset = 0; parser = none })

  abbrev keep_records :
      Watcher env.Files P
      → String
      → WatchedFile P
      → Option (ℕ × Store env.Files)
      → Option (Watcher env.Files P)
  keep_records w path watched none = none
  keep_records w path watched (some (consumed, store)) = some (record w {
    files = insert path (record watched { offset = watched.offset + consumed }) w.files;
    store = store;
  })

  abbrev pub journal_bytes : Disk → String → Option (List ℕ × ℕ)
  journal_bytes disk path = elim (disk.content path) [
    | none ↦ none
    | some content ↦ Option.map (λ info. (content, info.1)) (disk.stat path)
  ]

  -- `w.readJournal(path)`
  unfoldable pub read_journal :
      Disk → ℕ → Watcher env.Files P → String → Option (Watcher env.Files P)
  unfolding read_record
  read_journal disk now w path =
      let root = subagents_root_dir path in
      if is_empty root then some w else elim (journal_bytes disk path) [
        | none ↦ some w
        | some (content, mod_time) ↦
            let watched = journal_of w path in
            keep_records w path watched (
              read_from (read_record disk now w.agent (base root) mod_time) watched.offset w.store
                content)
      ]

  -- What `readSubagentMeta` does with metadata that it could read.
  unfoldable pub take_subagent_meta :
      Disk → ℕ → Watcher env.Files P → String → ℕ × ℕ → SubagentMeta → Option (Watcher env.Files P)
  take_subagent_meta disk now w path (size, mod_time) meta =
      let w' = record w { files = insert path (record { offset = size; parser = none }) w.files } in
      let root = subagents_root_dir path in
      let agent_id = agent_id_of path in
      if is_empty root
      then some w'
      else Option.map (store_in w') (
          add_turn_by_session_id env now w'.store (base root) w'.agent
            (subagent_turn (base root) (spawn_event disk path agent_id root mod_time meta)))

  abbrev pub meta_of_file : Disk → String → Option (ℕ × ℕ × SubagentMeta)
  meta_of_file disk path = elim (disk.stat path) [
    | none ↦ none
    | some (size, mod_time) ↦ elim (disk.content path) [
      | none ↦ none
      | some bytes ↦ Option.map (λ meta. (size, mod_time, meta)) (disk.subagent_meta bytes)
    ]
  ]

  -- `w.readSubagentMeta(path)`
  unfoldable pub read_subagent_meta :
      Disk → ℕ → Watcher env.Files P → String → Option (Watcher env.Files P)
  unfolding take_subagent_meta
  read_subagent_meta disk now w path =
      if is_some (lookup path w.files) then some w else elim (meta_of_file disk path) [
        | none ↦ some w
        | some (size, mod_time, meta) ↦ take_subagent_meta disk now w path (size, mod_time) meta
      ]
