-- ===== src/Watcher/Parsers.antt =====
-- The parsers of claude/parser.go and codex/parser.go behind the interface of watcher/parser.go. The
-- decoder of JSON and the codec of encoding/gob are given.
use peek_mcp.Prelude.{ℕ, List}
use peek_mcp.Prelude.Gob.{Codec}
use peek_mcp.Claude.Decoder as ClaudeDecoder
use peek_mcp.Claude.State as ClaudeState
use peek_mcp.Claude.Serial as ClaudeSerial
use peek_mcp.Claude.Parser as ClaudeParser
use peek_mcp.Claude.Fine as ClaudeFine
use peek_mcp.Codex.Decoder as CodexDecoder
use peek_mcp.Codex.State as CodexState
use peek_mcp.Codex.Serial as CodexSerial
use peek_mcp.Codex.Parser as CodexParser
use peek_mcp.Codex.Fine as CodexFine
use peek_mcp.Watcher.State.{LineParser}
use peek_mcp.Watcher.Sound.{Counted}

-- `claude.NewParser`
abbrev pub claude_parser :
    ClaudeDecoder.Decoder → Codec (List ℕ) ClaudeSerial.ParserState → LineParser
claude_parser d gob = record {
  Carried = ClaudeState.Parser;
  fresh = ClaudeState.new_parser;
  parse_line = ClaudeParser.parse_line d;
  state = ClaudeSerial.state gob;
  restore = ClaudeSerial.restore gob ClaudeState.new_parser;
}

-- `codex.NewParser`
abbrev pub codex_parser : CodexDecoder.Decoder → Codec (List ℕ) CodexSerial.ParserState → LineParser
codex_parser d gob = record {
  Carried = CodexState.Parser;
  fresh = CodexState.new_parser;
  parse_line = CodexParser.parse_line d;
  state = CodexSerial.state gob;
  restore = CodexSerial.restore gob CodexState.new_parser;
}

pub claude_parser-Counted :
    (d : ClaudeDecoder.Decoder) (gob : Codec (List ℕ) ClaudeSerial.ParserState)
    → ClaudeFine.DecodesWords d
    → Counted (claude_parser d gob)
claude_parser-Counted d gob words p line turn e =
    ClaudeFine.parse_line-UsageIsWords d p line turn words e

pub codex_parser-Counted :
    (d : CodexDecoder.Decoder) (gob : Codec (List ℕ) CodexSerial.ParserState)
    → CodexFine.DecodesWords d
    → Counted (codex_parser d gob)
codex_parser-Counted d gob words p line turn e =
    CodexFine.parse_line-UsageIsWords d p line turn words e
