-- ===== src/Tests/Buffers.antt =====
-- The buffers, the requests and the active turn on concrete data.
use peek_mcp.Prelude.{
  ◌≡◌, refl, ◌≤◌, ◌-◌, ◌%◌, List, [], ◌∷◌, none, some, length, arith, keep, take, drop,
}
use peek_mcp.Prelude.Words.{word_mod}
use peek_mcp.Session.Event.{Event}
use peek_mcp.Session.EventBuffer
use peek_mcp.Session.EventBuffer.Budget.{denied, not_denied, IsValid, push_all-budgets}
use peek_mcp.Session.EventBuffer.Budget
use peek_mcp.Session.Turn.{Turn}
use peek_mcp.Session.TurnBuffer
use peek_mcp.Session.TurnBuffer.{TurnBuffer, pushed, pushed_with_tool_calls}
use peek_mcp.Session.TurnBuffer.Window.{conversational, push_all-window}
use peek_mcp.Session.TurnBuffer.Window
use peek_mcp.Tests.Data.{chunk, later_chunk, empty_ring, denial, plan_event}

small-IsValid : IsValid (EventBuffer.new 3 1)
unfolding EventBuffer.new
small-IsValid = record { positive = omega arith; signed = omega arith; within = omega arith }

abbrev history : List Event
history = denial ∷ plan_event ∷ denial ∷ plan_event ∷ plan_event ∷ []

push_all-budgets_example :
    let b = Budget.push_all (EventBuffer.new 3 1) history in
    (keep denied b.items ≡ take 1 (keep denied history))
    × (keep not_denied b.items ≡ take (3 - 1) (keep not_denied history))
    × (length b.items ≤ 3)
push_all-budgets_example = push_all-budgets 3 1 history small-IsValid

abbrev turns : List Turn
turns = chunk ∷ later_chunk ∷ chunk ∷ later_chunk ∷ []

empty_ring-validate : TurnBuffer.validate empty_ring ≡ none
unfolding TurnBuffer.validate
empty_ring-validate = refl

empty_ring-new : TurnBuffer.new 3 ≡ some empty_ring
unfolding TurnBuffer.new
empty_ring-new = refl

push_all-window_example :
    (b : TurnBuffer) × (Window.push_all empty_ring turns ≡ some b)
    × (b.items ≡ drop (length turns - 3) turns)
    × (pushed b ≡ length (keep conversational turns) % word_mod)
    × (pushed_with_tool_calls b ≡ length turns % word_mod)
push_all-window_example = push_all-window 3 turns empty_ring-new empty_ring-validate
