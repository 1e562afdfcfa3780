-- ===== src/Session/TurnBuffer.antt =====
-- session/turn_buffer.go: the ring of the finished turns. The encoder of encoding/gob is given.
-- What the ring keeps of a history is in the module below.
pub mod Window
use peek_mcp.Prelude.{
  ℕ, String, ◌||◌, List, [], ◌∷◌, ◌++◌, Option, none, some, length, ◌==◌, if◌then◌else◌,
}
use mathlib.Core.Option
use peek_mcp.Prelude.Gob.{Codec}
use peek_mcp.Prelude.Words.{add64, is_negative, lt64}
use peek_mcp.Session.Turn.{Turn, is_tool_only}

pub record TurnBuffer : Type 0 where
  pub capacity : ℕ
  pub items : List Turn
  pub pushed : ℕ
  pub pushed_tool_only : ℕ

-- `NewTurnBuffer(capacity)`, where `make` panics at a negative capacity.
unfoldable pub new : ℕ → Option TurnBuffer
unfolding is_negative
new capacity =
    if is_negative capacity
    then none
    else some (record { capacity = capacity; items = []; pushed = 0; pushed_tool_only = 0 })

-- `b.Validate()` of a buffer that is not nil.
unfoldable pub validate : TurnBuffer → Option String
unfolding is_negative
validate b =
    if is_negative b.capacity || b.capacity == 0
    then some "TurnBuffer.Validate: Capacity must be positive"
    else none

abbrev count_pushed : TurnBuffer → Turn → TurnBuffer
count_pushed b turn =
    if is_tool_only turn
    then record b { pushed_tool_only = add64 b.pushed_tool_only 1 }
    else record b { pushed = add64 b.pushed 1 }

-- `items[1:]`, which panics on no items.
abbrev drop_first : List Turn → Option (List Turn)
drop_first [] = none
drop_first (x ∷ xs) = some xs

abbrev with_items : TurnBuffer → Turn → Option (List Turn) → Option TurnBuffer
with_items b turn none = none
with_items b turn (some items) = some (record b { items = items ++ turn ∷ [] })

-- `b.Push(turn)`; `none` is a panic.
unfoldable pub push : TurnBuffer → Turn → Option TurnBuffer
unfolding is_tool_only add64 lt64
push b turn =
    let counted = count_pushed b turn in
    if lt64 (length b.items) b.capacity
    then some (record counted { items = b.items ++ turn ∷ [] })
    else with_items counted turn (drop_first b.items)

-- `b.Len()`
abbrev pub len : TurnBuffer → ℕ
len b = length b.items

-- `b.Pushed()`
abbrev pub pushed : TurnBuffer → ℕ
pushed b = b.pushed

-- `b.PushedWithToolCalls()`
unfoldable pub pushed_with_tool_calls : TurnBuffer → ℕ
unfolding add64
pushed_with_tool_calls b = add64 b.pushed b.pushed_tool_only

-- `turnBufferSnapshot`
pub record TurnBufferSnapshot : Type 0 where
  pub capacity : ℕ
  pub items : List Turn
  pub pushed : ℕ
  pub pushed_tool_only : ℕ

-- `b.GobEncode()`; `none` is its error.
unfoldable pub gob_encode :
    {Bytes : Type 0} → Codec Bytes TurnBufferSnapshot → TurnBuffer → Option Bytes
gob_encode gob b = gob.encode (record {
  capacity = b.capacity;
  items = b.items;
  pushed = b.pushed;
  pushed_tool_only = b.pushed_tool_only;
})

-- `b.GobDecode(data)`: the ring afterwards, `none` for its error.
unfoldable pub gob_decode :
    {Bytes : Type 0} → Codec Bytes TurnBufferSnapshot → TurnBuffer → Bytes → Option TurnBuffer
gob_decode gob b bytes =
    Option.map
      (λ snapshot. record b {
        capacity = snapshot.capacity;
        items = snapshot.items;
        pushed = snapshot.pushed;
        pushed_tool_only = snapshot.pushed_tool_only;
      })
      (gob.decode bytes)

-- `&TurnBuffer{}`, into which a decoder decodes.
abbrev pub blank : TurnBuffer
blank = record { capacity = 0; items = []; pushed = 0; pushed_tool_only = 0 }
