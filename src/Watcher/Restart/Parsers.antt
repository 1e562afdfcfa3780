-- ===== src/Watcher/Restart/Parsers.antt =====
-- watcher/watcher.go with the parsers of claude/parser.go and codex/parser.go: the files of a watcher
-- across a restart.
use peek_mcp.Prelude.{ℕ, String, ◌≡◌, true, List, [], some}
use peek_mcp.Prelude.Assoc.{Assoc, lookup}
use peek_mcp.Prelude.Gob.{Codec, Carries}
use peek_mcp.Session.Turn.{is_filled}
use peek_mcp.Claude.Decoder as ClaudeDecoder
use peek_mcp.Claude.State as ClaudeState
use peek_mcp.Claude.Serial as ClaudeSerial
use peek_mcp.Codex.Decoder as CodexDecoder
use peek_mcp.Codex.State as CodexState
use peek_mcp.Codex.Serial as CodexSerial
use peek_mcp.Watcher.State.{LineParser, FileState, WatchedFile, file_states, restore_files}
use peek_mcp.Watcher.Parsers.{claude_parser, codex_parser}
use peek_mcp.Watcher.Restart.{Restores, Below, restore_files-back}

-- A parser of the program, with its decoder of JSON and its codec.
pub data Program : Type 0 where
  claude : ClaudeDecoder.Decoder → Codec (List ℕ) ClaudeSerial.ParserState → Program
  codex : CodexDecoder.Decoder → Codec (List ℕ) CodexSerial.ParserState → Program

abbrev pub parser_of : Program → LineParser
parser_of (claude d gob) = claude_parser d gob
parser_of (codex d gob) = codex_parser d gob

-- The documented behaviour of encoding/gob: a value comes back, and its encoding is not empty.
abbrev pub IsGob : {A : Type 0} → Codec (List ℕ) A → Type 0
IsGob {A} gob =
    Carries gob × ((a : A) (bytes : List ℕ) → gob.encode a ≡ some bytes → is_filled bytes ≡ true)

abbrev pub HasGob : Program → Type 0
HasGob (claude d gob) = IsGob gob
HasGob (codex d gob) = IsGob gob

claude_parser-Restores :
    (d : ClaudeDecoder.Decoder) (gob : Codec (List ℕ) ClaudeSerial.ParserState)
    → IsGob gob
    → Restores (claude_parser d gob)
unfolding ClaudeSerial.state
claude_parser-Restores d gob (carries, filled) p bytes e =
    (filled _ bytes e, ClaudeSerial.restore-state gob p ClaudeState.new_parser bytes carries e)

codex_parser-Restores :
    (d : CodexDecoder.Decoder) (gob : Codec (List ℕ) CodexSerial.ParserState)
    → IsGob gob
    → Restores (codex_parser d gob)
unfolding CodexSerial.state
codex_parser-Restores d gob (carries, filled) p bytes e =
    (filled _ bytes e, CodexSerial.restore-state gob p CodexState.new_parser bytes carries e)

parser_of-Restores : (program : Program) → HasGob program → Restores (parser_of program)
parser_of-Restores (claude d gob) h = claude_parser-Restores d gob h
parser_of-Restores (codex d gob) h = codex_parser-Restores d gob h

-- If encoding/gob gives back what it encoded, and never gives no bytes for a value: a watcher with
-- the parsers of Claude, or of Codex, that starts from the states of another's files, all below its
-- directory, restores every parser without an error and has the same file at every path: the same
-- offset, and a parser that remembers the same.
pub restore_files-file_states :
    (program : Program)
    → HasGob program
    → (dir : String) (files : Assoc (WatchedFile (parser_of program))) (states : Assoc FileState)
    → Below dir files
    → file_states (parser_of program) files ≡ some states
    → (files' : Assoc (WatchedFile (parser_of program))) × (restore_files
          (parser_of program)
          dir
          []
          states
        ≡ some files')
      × ((path : String) → lookup path files' ≡ lookup path files)
restore_files-file_states program gob dir files states below e =
    restore_files-back (parser_of program) (parser_of-Restores program gob) dir files states below e
