-- ===== src/Codex/Decoder.antt =====
-- What the parser is given: the decoding of JSON by the tags of the structs (encoding/json). The
-- decoding of a `Source`, which the code writes itself, is modelled on top.
use mathlib.Core.Option
use peek_mcp.Prelude.{ℕ, String, List, Option, none, some}
use peek_mcp.Codex.Entry.{
  Entry, EventMessage, GitInfo, ResponseItem, SessionMeta, Source, TurnContext,
  source_kind_subagent, source_kind_unknown,
}

-- `execCommandArgs`
pub record ExecCommandArgs : Type 0 where
  pub cmd : String
  pub justification : String
  pub sandbox_permissions : String

-- `sourceThreadSpawn`
pub record ThreadSpawn : Type 0 where
  pub agent_nickname : String
  pub parent_thread_id : String

-- A `SessionMeta` whose source is still raw; `none` is a missing key.
pub record RawSessionMeta : Type 0 where
  pub id : String
  pub cli_version : String
  pub cwd : String
  pub forked_from_id : String
  pub git : Option GitInfo
  pub originator : String
  pub source : Option String

-- `none` is an error. An entry is the bytes of a line.
pub record Decoder : Type 0 where
  pub entry : List ℕ → Option Entry
  pub session_meta : String → Option RawSessionMeta
  pub turn_context : String → Option TurnContext
  pub response_item : String → Option ResponseItem
  pub event_message : String → Option EventMessage
  pub text : String → Option String
  pub exec_command_args : String → Option ExecCommandArgs
  -- the `thread_spawn` of the `subagent` of an object, if neither is nil
  pub thread_spawn : String → Option ThreadSpawn

spawned_source : Option ThreadSpawn → Source
spawned_source none = record {
  agent_nickname = "";
  kind = source_kind_unknown;
  parent_thread_id = "";
}
spawned_source (some spawn) = record {
  agent_nickname = spawn.agent_nickname;
  kind = source_kind_subagent;
  parent_thread_id = spawn.parent_thread_id;
}

-- `s.UnmarshalJSON(data)`: a text, or an object with a spawned thread, or of unknown kind.
unfoldable pub unmarshal_source : Decoder → String → Source
unfolding spawned_source
unmarshal_source d raw = elim (d.text raw) [
  | some kind ↦ record { agent_nickname = ""; kind = kind; parent_thread_id = "" }
  | none ↦ spawned_source (d.thread_spawn raw)
]

source_of : Decoder → Option String → Source
unfolding unmarshal_source
source_of d none = record { agent_nickname = ""; kind = ""; parent_thread_id = "" }
source_of d (some raw) = unmarshal_source d raw

-- `json.Unmarshal(payload, &meta)`
unfoldable pub unmarshal_session_meta : Decoder → String → Option SessionMeta
unfolding source_of
unmarshal_session_meta d payload =
    Option.map
      (λ raw. record {
        id = raw.id;
        cli_version = raw.cli_version;
        cwd = raw.cwd;
        forked_from_id = raw.forked_from_id;
        git = raw.git;
        originator = raw.originator;
        source = source_of d raw.source;
      })
      (d.session_meta payload)
