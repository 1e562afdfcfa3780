-- ===== src/Tests/Watching.antt =====
-- Rollouts and transcripts that are read.

use mathlib.Core.Option.{some-injective}
use mathlib.Core.Path.{subst}
use peek_mcp.Prelude.{
  ℕ, ◌≡◌, sym, String, false, List, [], ◌∷◌, Option, none, some, arith, ◌==◌, if◌then◌else◌,
}
use peek_mcp.Prelude.Assoc.{lookup}
use peek_mcp.Session.Usage.Laws.{IsWords}
use peek_mcp.Codex.Entry as CodexEntry
use peek_mcp.Codex.Decoder as CodexDecoder
use peek_mcp.Codex.State as CodexState
use peek_mcp.Codex.Fine as CodexFine
use peek_mcp.Watcher.State.{LineParser, Watcher, new_watcher}
use peek_mcp.Watcher.Disk.{Disk}
use peek_mcp.Watcher.Batch.{read_dirty_paths}
use peek_mcp.Watcher.Sound.{WatcherSound}
use peek_mcp.Watcher.Dirty.{read_dirty_paths-WatcherSound}
use peek_mcp.Prelude.Gob.{Codec}
use peek_mcp.Codex.Serial.{ParserState}
use peek_mcp.Watcher.Parsers.{codex_parser, codex_parser-Counted}
use peek_mcp.Tests.Data.{env}
use peek_mcp.Tests.Intake.{store, store-Sound}

abbrev meta_entry : CodexEntry.Entry
meta_entry = record { timestamp = 5; type = "session_meta"; payload = "{}" }

abbrev usage_entry : CodexEntry.Entry
usage_entry = record { timestamp = 6; type = "event_msg"; payload = "{}" }

abbrev total : CodexEntry.TokenUsage
total = record {
  input_tokens = 70;
  cached_input_tokens = 20;
  output_tokens = 9;
  reasoning_output_tokens = 4;
  total_tokens = 79;
}

abbrev usage_message : CodexEntry.EventMessage
usage_message = record {
  type = "token_count";
  info = some (record { total_token_usage = some total });
}

abbrev raw_meta : CodexDecoder.RawSessionMeta
raw_meta = record {
  id = "s7";
  cli_version = "1";
  cwd = "/home/dev/app";
  forked_from_id = "";
  git = none;
  originator = "cli";
  source = none;
}

-- A line "m" is metadata, every other line a total of usage.
abbrev entry_of : List ℕ → Option CodexEntry.Entry
entry_of [] = none
entry_of (b ∷ line) = if b == 109 then some meta_entry else some usage_entry

abbrev pub decoder : CodexDecoder.Decoder
decoder = record {
  entry = entry_of;
  session_meta = λ payload. some raw_meta;
  turn_context = λ payload. none;
  response_item = λ payload. none;
  event_message = λ payload. some usage_message;
  text = λ raw. none;
  exec_command_args = λ raw. none;
  thread_spawn = λ raw. none;
}

pub decoder-DecodesWords : CodexFine.DecodesWords decoder
decoder-DecodesWords payload message found e f =
    let it : ◌≡◌ {A = Option CodexEntry.TokenUsage} (some total) (some found) =
      subst (λ m. CodexEntry.total_of m.info ≡ some found)
        (sym (some-injective usage_message message e)) f in
    subst (λ u. IsWords (CodexState.convert_usage u)) (some-injective total found it) words
  where
    words : IsWords (CodexState.convert_usage total)
    words = record {
      w1 = omega arith;
      w2 = omega arith;
      w3 = omega arith;
      w4 = omega arith;
      w5 = omega arith;
      w6 = omega arith;
      w7 = omega arith;
      w8 = omega arith;
      w9 = omega arith;
    }

-- A codec that fails.
abbrev pub no_gob : Codec (List ℕ) ParserState
no_gob = record { encode = λ a. none; decode = λ bytes. none }

abbrev pub parser : LineParser
parser = codex_parser decoder no_gob

-- A file with the lines "m" and "u", and the beginning of a line.
abbrev pub written : List ℕ
written = 109 ∷ 10 ∷ 117 ∷ 10 ∷ 117 ∷ []

abbrev pub disk_with : List ℕ → Disk
disk_with bytes = record {
  content = λ path. some bytes;
  stat = λ path. some (5, 9);
  is_dir = λ path. false;
  subagent_meta = λ data_bytes. none;
  journal_record = λ line. none;
  workflow_agents = λ data_bytes. none;
}

abbrev pub watcher : Watcher String parser
watcher = new_watcher parser "/home/dev" "codex" "/d" store

pub watcher-Sound : WatcherSound watcher
unfolding lookup
watcher-Sound = record {
  parsers = λ path watched suffix other e. absurd (ground (arith, e));
  store = store-Sound;
}

read_dirty_paths-WatcherSound_example :
    (w : Watcher String parser) × (read_dirty_paths env parser
        (disk_with written)
        7
        watcher
        ("/d/a.jsonl" ∷ "/d/s7/subagents/agent-1.meta.json" ∷ [])
      ≡ some w)
    × WatcherSound w
read_dirty_paths-WatcherSound_example =
    read_dirty_paths-WatcherSound env parser
      (codex_parser-Counted decoder no_gob decoder-DecodesWords) (disk_with written) 7 watcher
      ("/d/a.jsonl" ∷ "/d/s7/subagents/agent-1.meta.json" ∷ []) watcher-Sound
