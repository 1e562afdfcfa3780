-- ===== src/Watcher/Lines.antt =====
-- watcher/watcher.go: the loop over the complete lines of the bytes that a file gained, which
-- `readNewLines` and `readJournal` share. A file is the list of its bytes.
use peek_mcp.Prelude.{
  ℕ, ◌+◌, Bool, false, true, not, List, [], ◌∷◌, ◌++◌, Option, none, some, length, drop, ◌==◌,
  if◌then◌else◌,
}
pub mod Scan
pub mod Resume
pub mod Steps

-- The bytes before the first part.
abbrev pub onto_line : List ℕ → List (List ℕ) → List (List ℕ)
onto_line bytes [] = bytes ∷ []
onto_line bytes (part ∷ parts) = (bytes ++ part) ∷ parts

-- bytes.SplitAfter(bytes, []byte{'\n'})
unfoldable pub split_after : List ℕ → List (List ℕ)
split_after [] = [] ∷ []
split_after (b ∷ bytes) =
    let parts = split_after bytes in if b == 10 then (b ∷ []) ∷ parts else onto_line (b ∷ []) parts

-- `part[len(part)-1] == '\n'`
unfoldable pub ends_in_newline : List ℕ → Bool
ends_in_newline [] = false
ends_in_newline (b ∷ []) = b == 10
ends_in_newline (b ∷ c ∷ bytes) = ends_in_newline (c ∷ bytes)

-- bytes.TrimSuffix(bytes, []byte{last})
unfoldable pub trim_byte : ℕ → List ℕ → List ℕ
trim_byte last [] = []
trim_byte last (b ∷ []) = if b == last then [] else b ∷ []
trim_byte last (b ∷ c ∷ bytes) = b ∷ trim_byte last (c ∷ bytes)

-- The line of a part: without its newline, and without a carriage return before that.
abbrev pub line_of : List ℕ → List ℕ
unfolding trim_byte
line_of part = trim_byte 13 (trim_byte 10 part)

module _ {S : Type 0} (step : S → List ℕ → Option S) where
  -- The step of a line that is not empty.
  unfoldable pub on_line : S → List ℕ → Option S
  on_line s [] = some s
  on_line s (b ∷ line) = step s (b ∷ line)

  -- The loop, with the bytes consumed so far: it stops at an incomplete line, and counts the bytes of
  -- complete lines alone. `none` is a panic of a step.
  unfoldable pub each_line : ℕ → S → List (List ℕ) → Option (ℕ × S)
  unfolding on_line ends_in_newline trim_byte
  each_line consumed s [] = some (consumed, s)
  each_line consumed s ([] ∷ parts) = each_line consumed s parts
  each_line consumed s ((b ∷ bytes) ∷ parts) = elim (ends_in_newline (b ∷ bytes)) [
    | false ↦ some (consumed, s)
    | true ↦ elim (on_line s (line_of (b ∷ bytes))) [
      | none ↦ none
      | some s' ↦ each_line (consumed + length (b ∷ bytes)) s' parts
    ]
  ]

  -- What a read of a file from an offset does: how many bytes it consumes, and the new state.
  unfoldable pub read_from : ℕ → S → List ℕ → Option (ℕ × S)
  unfolding each_line split_after
  read_from offset s content = each_line 0 s (split_after (drop offset content))
