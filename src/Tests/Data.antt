-- ===== src/Tests/Data.antt =====
-- Concrete data for the tests.
use peek_mcp.Prelude.{String, false, [], ◌∷◌, none, some}
use peek_mcp.Store.Env.{Env}
use peek_mcp.Session.Event.{Event, permission_denied, plan_mode_enter, blank_event}
use peek_mcp.Session.Meta.{Meta}
use peek_mcp.Session.Turn.{Turn, ToolCall}
use peek_mcp.Session.TurnBuffer.{TurnBuffer}
use peek_mcp.Session.Usage.{Usage, zero_usage}

abbrev pub sample_meta : Meta
sample_meta = record {
  session_id = "s1";
  cwd = "/home/dev/app";
  git_branch = "main";
  model = "opus";
  project = "app";
  origin = none;
}

abbrev pub sample_usage : Usage
sample_usage = record zero_usage { input_tokens = 120; output_tokens = 30; total_tokens = 150 }

abbrev pub sample_call : ToolCall
sample_call = record { id = "t1"; input = "ls"; is_error = false; name = "Bash"; timestamp = 5 }

-- A chunk of the request "r1".
abbrev pub chunk : Turn
chunk = record {
  role = "assistant";
  text = "Hello";
  thinking = "";
  timestamp = 7;
  meta = some sample_meta;
  request_id = "r1";
  usage = some sample_usage;
  events = [];
  file_touches = [];
  file_path = "";
  plan_file_path = "";
  plan_content = "";
  custom_title = "";
  prompt_id = "p1";
  stop_reason = "";
  subagent_id = "";
  title_source = "";
  tool_calls = sample_call ∷ [];
  tool_results = [];
}

abbrev pub later_chunk : Turn
later_chunk = record chunk { text = ", world"; tool_calls = []; timestamp = 9 }

abbrev pub subagent_chunk : Turn
subagent_chunk = record chunk { subagent_id = "a1"; request_id = "r2" }

abbrev pub empty_ring : TurnBuffer
empty_ring = record { capacity = 3; items = []; pushed = 0; pushed_tool_only = 0 }

abbrev pub denial : Event
denial = blank_event permission_denied 3

abbrev pub plan_event : Event
plan_event = blank_event plan_mode_enter 4

-- Files that hold one plan.
abbrev pub env : Env
env = record {
  Files = String;
  read_diff_base = λ files agent id. none;
  stat_diff_snapshot = λ files agent id. none;
  read_diff_snapshot = λ files agent id. none;
  read_plan_latest = λ files agent id. some files;
  read_plan_versions = λ files agent id. [];
  write_plan_version = λ files agent id version. files;
  write_plan_latest = λ files agent latest id. latest;
  read_file = λ files path. none;
  worktree_plan = λ cwd path. path;
  unified_diff_string = λ previous current. some current;
  lower = λ c. c;
}
