-- ===== src/Watcher/Disk.antt =====
-- watcher/watcher.go: what the reads of a watcher find.
use peek_mcp.Prelude.{ℕ, String, Bool, List, Option}

-- `subagentMeta`
pub record SubagentMeta : Type 0 where
  pub agent_type : String
  pub description : String
  pub spawn_depth : ℕ
  pub tool_use_id : String

-- `journalRecord`; the result is its raw JSON.
pub record JournalRecord : Type 0 where
  pub type : String
  pub agent_id : String
  pub result : String

-- An agent of a `workflowManifest`.
pub record WorkflowAgent : Type 0 where
  pub agent_id : String
  pub label : String

-- The files as the calls find them, and the decoding of JSON by the tags of the structs; `none` is
-- an error.
pub record Disk : Type 0 where
  -- os.Open or os.ReadFile, with all that a reader of the file gets
  pub content : String → Option (List ℕ)
  -- the size and the time of os.Stat
  pub stat : String → Option (ℕ × ℕ)
  pub is_dir : String → Bool
  pub subagent_meta : List ℕ → Option SubagentMeta
  pub journal_record : List ℕ → Option JournalRecord
  pub workflow_agents : List ℕ → Option (List WorkflowAgent)
