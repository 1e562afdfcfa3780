-- ===== src/Session/TurnBuffer/Window.antt =====
-- session/turn_buffer.go: what the ring of finished turns keeps of a history of pushes.
use mathlib.Core.List.{append-nil, append_assoc}
use peek_mcp.Prelude.{
  ◌%◌, drop-nil, length-keep_split, window-snoc, ℕ, suc, ◌+◌, ◌-◌, ◌≤◌, ◌<◌, ◌≡◌, refl, ap, sym,
  ◌∙◌, not, List, [], ◌∷◌, ◌++◌, Option, none, some, length, drop, keep, keep-snoc_hit,
  keep-snoc_miss, length-snoc, length-drop, arith, Bool-cases, Bool, ltb, inl, inr, if◌then◌else◌,
}
use peek_mcp.Prelude.Words.{word_mod, add64}
use peek_mcp.Session.Turn.{Turn, is_tool_only}
use peek_mcp.Session.TurnBuffer.{TurnBuffer, new, push, validate, pushed, pushed_with_tool_calls}

-- The bounds that `Validate` checks, and no more items than the capacity.
pub record IsValid (b : TurnBuffer) : Type 0 where
  pub positive : 0 < b.capacity
  pub signed : b.capacity < 9223372036854775808
  pub within : length b.items ≤ b.capacity

abbrev pub conversational : Turn → Bool
conversational t = not (is_tool_only t)

-- The ring after a push: the newest turns that fit, and the two counts.
abbrev pub after_push : TurnBuffer → Turn → TurnBuffer
after_push b turn = record {
  capacity = b.capacity;
  items = drop (length b.items + 1 - b.capacity) (b.items ++ turn ∷ []);
  pushed = if is_tool_only turn then b.pushed else add64 b.pushed 1;
  pushed_tool_only = if is_tool_only turn then add64 b.pushed_tool_only 1 else b.pushed_tool_only;
}

push-after_push_at :
    (capacity pushed tool_only : ℕ) (items : List Turn) (turn : Turn)
    → let b : TurnBuffer = record {
      capacity = capacity;
      items = items;
      pushed = pushed;
      pushed_tool_only = tool_only;
    } in
      IsValid b → push b turn ≡ some (after_push b turn)
unfolding push
push-after_push_at capacity pushed tool_only [] turn v = rw (the_zero) (ground arith)
  where
    the_zero : 1 - capacity ≡ 0
    the_zero = omega (arith, v.positive)
push-after_push_at capacity pushed tool_only (x ∷ xs) turn v =
    elim (Bool-cases (ltb (suc (length xs)) capacity)) [
      | inl room ↦
          let e : suc (length xs) + 1 - capacity ≡ 0 = ground (arith, v.positive) in
          rw e (ground arith)
      | inr full ↦
          let e : suc (length xs) + 1 - capacity ≡ 1 = ground (arith, v.within) in
          rw e (ground (arith, v.within))
    ]

-- A push into a valid buffer does not panic.
pub push-after_push :
    (b : TurnBuffer) (turn : Turn) → IsValid b → push b turn ≡ some (after_push b turn)
push-after_push b turn v = push-after_push_at b.capacity b.pushed b.pushed_tool_only b.items turn v

pub after_push-IsValid : (b : TurnBuffer) (turn : Turn) → IsValid b → IsValid (after_push b turn)
after_push-IsValid b turn v = record {
  positive = v.positive;
  signed = v.signed;
  within = omega (
    arith,
    v.within,
    length-drop (length b.items + 1 - b.capacity) (b.items ++ turn ∷ []),
    length-snoc b.items turn,
  );
}

-- The ring `b` holds the newest turns of the history, as many as its capacity, and counts all of
-- its turns by kind, in 64 bits.
pub record Tracks (b : TurnBuffer) (history : List Turn) : Type 0 where
  pub window : b.items ≡ drop (length history - b.capacity) history
  pub counted : b.pushed ≡ length (keep conversational history) % word_mod
  pub tool_counted : b.pushed_tool_only ≡ length (keep is_tool_only history) % word_mod

after_push-Tracks :
    (b : TurnBuffer) (history : List Turn) (turn : Turn)
    → Tracks b history
    → Tracks (after_push b turn) (history ++ turn ∷ [])
unfolding add64
after_push-Tracks b history turn t = record {
  window = rw t.window (window-snoc b.capacity history turn);
  counted = elim (Bool-cases (is_tool_only turn)) [
    | inl tool ↦ rw (tool, keep-snoc_miss conversational history turn (ground arith)) t.counted
    | inr chat ↦
        rw (chat, keep-snoc_hit conversational history turn (ground arith))
          (omega (arith, t.counted, length-snoc (keep conversational history) turn))
  ];
  tool_counted = elim (Bool-cases (is_tool_only turn)) [
    | inl tool ↦
        rw (tool, keep-snoc_hit is_tool_only history turn tool)
          (omega (arith, t.tool_counted, length-snoc (keep is_tool_only history) turn))
    | inr chat ↦ rw (chat, keep-snoc_miss is_tool_only history turn chat) t.tool_counted
  ];
}

-- Pushes in a row; `none` is a panic.
pub push_all : TurnBuffer → List Turn → Option TurnBuffer
push_all b [] = some b
push_all b (turn ∷ turns) = elim (push b turn) [ none ↦ none | some b' ↦ push_all b' turns ]

push_all-Tracks :
    (b : TurnBuffer) (past turns : List Turn)
    → IsValid b
    → Tracks b past
    → (b' : TurnBuffer) × (push_all b turns ≡ some b')
      × Tracks b' (past ++ turns)
      × (b'.capacity ≡ b.capacity)
unfolding push_all
push_all-Tracks b past [] v t = (b, refl, rw append-nil t, refl)
push_all-Tracks b past (turn ∷ turns) v t =
    let (b', ran, t', c) =
      push_all-Tracks (after_push b turn) (past ++ turn ∷ []) turns (after_push-IsValid b turn v)
        (after_push-Tracks b past turn t) in
    (b', rw (push-after_push b turn v, push_all) ran, rw append_assoc at t', c)

-- A new ring of a positive capacity takes any turns without a panic. It then holds the newest ones
-- that fit, in order, and its counts are those of all turns pushed, evicted or not: `Pushed` of the
-- turns with text, `PushedWithToolCalls` of every turn (in 64 bits).
pub push_all-window :
    (capacity : ℕ) (turns : List Turn) {b : TurnBuffer}
    → new capacity ≡ some b
    → validate b ≡ none
    → (b' : TurnBuffer) × (push_all b turns ≡ some b')
      × (b'.items ≡ drop (length turns - capacity) turns)
      × (pushed b' ≡ length (keep conversational turns) % word_mod)
      × (pushed_with_tool_calls b' ≡ length turns % word_mod)
unfolding new validate pushed_with_tool_calls
push_all-window capacity turns {b} made h =
    let size : b.capacity ≡ capacity = ground arith in
    let no_items : b.items ≡ [] = ground arith in
    let (b', ran, t, c) =
      push_all-Tracks b [] turns
        (record {
          positive = ground arith;
          signed = ground arith;
          within = rw no_items (omega arith);
        })
        (record {
          window = no_items ∙ sym (drop-nil (0 - b.capacity));
          counted = ground arith;
          tool_counted = ground arith;
        }) in
    (
      b',
      ran,
      t.window ∙ ap (λ n. drop (length turns - n) turns) (c ∙ size),
      t.counted,
      omega (arith, t.counted, t.tool_counted, length-keep_split is_tool_only turns),
    )
