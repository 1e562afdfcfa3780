-- ===== src/Tests/Uses.antt =====
-- An edit and its result.
use peek_mcp.Prelude.{◌≡◌, refl, [], ◌∷◌, ◌++◌, none, some}
use peek_mcp.Prelude.Assoc.{lookup}
use peek_mcp.Claude.Entry.{ContentBlock}
use peek_mcp.Claude.Decoder.{Decoder}
use peek_mcp.Claude.Content.{file_touch_from_result}
use peek_mcp.Claude.Events.{tool_result_event}
use peek_mcp.Claude.State.{new_parser, remember_tool_use, cons_some, events_from_user_blocks}
use peek_mcp.Claude.Uses.{use_of, taken, events_from_user_blocks-used}
use peek_mcp.Tests.Parsing.{prompt_entry, tool_use, claude_decoder}

abbrev edit : ContentBlock
edit = record tool_use { name = "Edit"; input = "{\"file_path\": \"a.go\"}" }

abbrev result : ContentBlock
result = record tool_use { id = ""; type = "tool_result"; tool_use_id = "t1" }

abbrev decoder : Decoder
decoder = record claude_decoder {
  file_tool_input = λ text. some (record { file_path = "a.go"; notebook_path = "" });
}

-- A text before the result, and the result again after it.
abbrev text : ContentBlock
text = record tool_use { id = ""; type = "text"; tool_use_id = "" }

events_from_user_blocks-used_example :
    let waiting = remember_tool_use new_parser edit in
    let (p₁, events, touches) = events_from_user_blocks decoder prompt_entry waiting (text ∷ []) in
    let (p₂, events', touches') =
      events_from_user_blocks decoder prompt_entry (taken p₁ "t1") (result ∷ []) in
    (events_from_user_blocks decoder prompt_entry waiting (text ∷ result ∷ result ∷ []) ≡ (
      p₂,
      events ++ cons_some (tool_result_event decoder result prompt_entry (use_of edit)) events',
      touches ++ cons_some (file_touch_from_result decoder result (use_of edit)) touches',
    ))
    × (lookup "t1" p₂.pending_tools ≡ none)
events_from_user_blocks-used_example =
    events_from_user_blocks-used decoder prompt_entry new_parser edit result (text ∷ [])
      (result ∷ []) refl refl refl refl (refl, tt)
