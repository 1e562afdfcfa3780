-- ===== src/Session/EventBuffer.antt =====
-- session/event_buffer.go: the events of a session within two budgets. The encoder of
-- encoding/gob is given. The refinement to the two budgets is in the module below.
pub mod Budget
use peek_mcp.Prelude.{
  ℕ, String, Bool, not, ◌||◌, List, [], ◌∷◌, ◌++◌, Option, none, some, length, ◌==◌, if◌then◌else◌,
}
use mathlib.Core.Option
use peek_mcp.Prelude.Gob.{Codec}
use peek_mcp.Prelude.Words.{add64, sub64, is_negative, lt64}
use peek_mcp.Session.Event.{Event, is_denied}

pub record EventBuffer : Type 0 where
  pub capacity : ℕ
  pub denial_budget : ℕ
  pub denials : ℕ
  pub items : List Event

-- `NewEventBuffer(capacity, denialBudget)`
unfoldable pub new : ℕ → ℕ → EventBuffer
new capacity denial_budget = record {
  capacity = capacity;
  denial_budget = denial_budget;
  denials = 0;
  items = [];
}

-- `b.Validate()` of a buffer that is not nil.
unfoldable pub validate : EventBuffer → Option String
unfolding is_negative lt64
validate b =
    if is_negative b.capacity || b.capacity == 0
    then some "EventBuffer.Validate: Capacity must be positive"
    else if is_negative b.denial_budget || lt64 b.capacity b.denial_budget
    then some "EventBuffer.Validate: Denial budget must lie within capacity"
    else none

-- `b.All()`: a copy of the events, oldest first.
abbrev pub all : EventBuffer → List Event
all b = b.items

-- `b.Len()`
abbrev pub len : EventBuffer → ℕ
len b = length b.items

-- `b.Push(event)`; `x >= y` is `not (x < y)`.
unfoldable pub push : EventBuffer → Event → EventBuffer
unfolding add64 sub64 lt64
push b event =
    if is_denied event.kind
    then (if not (lt64 b.denials b.denial_budget)
        then b
        else record b { denials = add64 b.denials 1; items = b.items ++ event ∷ [] })
    else if not (lt64 (sub64 (length b.items) b.denials) (sub64 b.capacity b.denial_budget))
    then b
    else record b { items = b.items ++ event ∷ [] }

-- `eventBufferSnapshot`
pub record EventBufferSnapshot : Type 0 where
  pub capacity : ℕ
  pub denial_budget : ℕ
  pub denials : ℕ
  pub items : List Event

-- `b.GobEncode()`; `none` is its error.
unfoldable pub gob_encode :
    {Bytes : Type 0} → Codec Bytes EventBufferSnapshot → EventBuffer → Option Bytes
gob_encode gob b = gob.encode (record {
  capacity = b.capacity;
  denial_budget = b.denial_budget;
  denials = b.denials;
  items = b.items;
})

-- `b.GobDecode(data)`: the buffer afterwards, `none` for its error.
unfoldable pub gob_decode :
    {Bytes : Type 0} → Codec Bytes EventBufferSnapshot → EventBuffer → Bytes → Option EventBuffer
gob_decode gob b bytes =
    Option.map
      (λ snapshot. record b {
        capacity = snapshot.capacity;
        denial_budget = snapshot.denial_budget;
        denials = snapshot.denials;
        items = snapshot.items;
      })
      (gob.decode bytes)

-- `&EventBuffer{}`, into which a decoder decodes.
abbrev pub blank : EventBuffer
blank = record { capacity = 0; denial_budget = 0; denials = 0; items = [] }
