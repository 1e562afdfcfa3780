-- ===== src/Tests/Growing.antt =====
-- A rollout that grows, and the root of a sub-agent's file.

use peek_mcp.Prelude.{
  ℕ, ◌≤◌, ◌≡◌, refl, String, true, false, List, [], ◌∷◌, ◌++◌, some, length, arith,
}
use peek_mcp.Prelude.Assoc.{lookup}
use peek_mcp.Prelude.Text.{has_suffix}
use peek_mcp.Prelude.Paths.{base, dir}
use peek_mcp.Watcher.Roots.{
  jsonl_suffix, is_workflow_journal_path, root_search, root_search-ends, IsRoot,
}
use peek_mcp.Watcher.State.{Watcher}
use peek_mcp.Watcher.Reader.{transcript_of, read_new_lines}
use peek_mcp.Watcher.Sound.{WatcherSound, read_new_lines-WatcherSound}
use peek_mcp.Watcher.Growth.{read_new_lines-resumes, read_new_lines-within}
use peek_mcp.Watcher.Parsers.{codex_parser-Counted}
use peek_mcp.Tests.Data.{env}
use peek_mcp.Tests.Watching.{
  decoder, decoder-DecodesWords, no_gob, parser, written, disk_with, watcher, watcher-Sound,
}

rollout : has_suffix "/d/a.jsonl" jsonl_suffix ≡ true
unfolding has_suffix
rollout = refl

no_journal : is_workflow_journal_path "/d/a.jsonl" ≡ false
unfolding is_workflow_journal_path base
no_journal = refl

first_read :
    (w : Watcher String parser) × (read_new_lines env parser
        (disk_with written)
        7
        watcher
        "/d/a.jsonl"
      ≡ some w)
    × WatcherSound w
first_read =
    read_new_lines-WatcherSound env parser
      (codex_parser-Counted decoder no_gob decoder-DecodesWords) (disk_with written) 7 watcher
      "/d/a.jsonl" rollout no_journal watcher-Sound

abbrev tail : List ℕ
tail = 10 ∷ 117 ∷ 10 ∷ []

at_start : (transcript_of env parser watcher "/d/a.jsonl").offset ≤ length written
unfolding lookup
at_start = omega arith

read_new_lines-resumes_example :
    read_new_lines env parser (disk_with (written ++ tail)) 7 first_read.0 "/d/a.jsonl"
    ≡ read_new_lines env parser (disk_with (written ++ tail)) 7 watcher "/d/a.jsonl"
read_new_lines-resumes_example =
    read_new_lines-resumes env parser (disk_with written) (disk_with (written ++ tail)) 7 watcher
      first_read.0 "/d/a.jsonl" written tail refl refl at_start first_read.1

read_new_lines-within_example :
    (transcript_of env parser first_read.0 "/d/a.jsonl").offset ≤ length written
read_new_lines-within_example =
    read_new_lines-within env parser (disk_with written) 7 watcher first_read.0 "/d/a.jsonl" written
      refl at_start first_read.1

root_search-ends_example :
    (root : String) × (root_search "/d/s7/subagents/agent-1.jsonl" ≡ some root)
    × IsRoot (dir "/d/s7/subagents/agent-1.jsonl") root
root_search-ends_example = root_search-ends "/d/s7/subagents/agent-1.jsonl"
