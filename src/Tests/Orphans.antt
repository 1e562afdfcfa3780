-- ===== src/Tests/Orphans.antt =====
-- The first line of a rollout.
use peek_mcp.Prelude.{◌≡◌, refl, [], ◌∷◌, some, true, str_eq}
use peek_mcp.Session.Meta.{blank_meta, blank_origin}
use peek_mcp.Session.Turn.{Turn, blank_turn}
use peek_mcp.Codex.Entry.{Entry, validate_entry, validate_session_meta, entry_type_session_meta}
use peek_mcp.Codex.Decoder.{unmarshal_session_meta}
use peek_mcp.Codex.State.{new_parser}
use peek_mcp.Codex.Parser.{
  checked, parse_line, handle_entry, handle_session_meta, take_session_meta,
}
use peek_mcp.Codex.Orphans.{parse_line-orphan}
use peek_mcp.Tests.Watching.{decoder}

abbrev meta_turn : Turn
meta_turn = record blank_turn {
  role = "assistant";
  timestamp = 5;
  meta = some (record (blank_meta "s7") {
    cwd = "/home/dev/app";
    origin = some (record blank_origin { cli_version = "1"; originator = "cli" });
  });
}

meta_line : (parse_line decoder new_parser (109 ∷ [])).1 ≡ some meta_turn
unfolding parse_line handle_entry handle_session_meta take_session_meta validate_entry
    validate_session_meta unmarshal_session_meta
meta_line = refl

parse_line-orphan_example :
    (entry : Entry) × (checked validate_entry (decoder.entry (109 ∷ [])) ≡ some entry)
    × (str_eq entry.type entry_type_session_meta ≡ true)
parse_line-orphan_example = parse_line-orphan decoder new_parser (109 ∷ []) meta_turn refl meta_line
