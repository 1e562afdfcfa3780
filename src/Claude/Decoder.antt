-- ===== src/Claude/Decoder.antt =====
-- What the parser is given: the decoding of JSON by the tags of the structs (encoding/json), the
-- paths of the platform (path/filepath) and the reading of a file.
use peek_mcp.Prelude.{ℕ, String, List, Option}
use peek_mcp.Claude.Entry.{Entry, Message, Attachment, ContentBlock}

-- `fileToolInput`
pub record FileToolInput : Type 0 where
  pub file_path : String
  pub notebook_path : String

-- `deniedToolInput`
pub record DeniedToolInput : Type 0 where
  pub command : String
  pub file_path : String
  pub notebook_path : String

-- `skillInput`
pub record SkillInput : Type 0 where
  pub args : String
  pub skill : String

-- `none` is an error. An entry is the bytes of a line, and the inner `none` is the JSON `null`.
-- Where the code goes on after an error, the field gives what was decoded up to it.
pub record Decoder : Type 0 where
  pub entry : List ℕ → Option (Option Entry)
  pub message : String → Option Message
  pub attachment : String → Option Attachment
  pub blocks : String → Option (List ContentBlock)
  pub text : String → Option String
  pub file_tool_input : String → Option FileToolInput
  pub denied_tool_input : String → Option DeniedToolInput
  pub skill_input : String → SkillInput
  -- the `question` of each element of `questions`
  pub questions : String → List String
  -- filepath.Base and filepath.Dir
  pub base : String → String
  pub dir : String → String
  -- the file of a path, up to a number of bytes
  pub read_limited : String → ℕ → Option String
