-- ===== src/Session/Turns/Results.antt =====
-- session/session.go: `findToolCall` after `applyToolResults`.
use mathlib.Core.Option
use peek_mcp.Prelude.{
  ◌≡◌, refl, ◌∙◌, String, true, List, [], ◌∷◌, Option, none, some, length, arith, str_eq, eq_iff,
  is_some, Bool-cases, Option-cases, inl, inr, if◌then◌else◌,
}
use peek_mcp.Session.Turn.{Turn, ToolCall, ToolResult, find_call}
use peek_mcp.Session.TurnBuffer.{TurnBuffer}
use peek_mcp.Session.Turns.{
  find_newest, find_tool_call, mark_call, mark_newest, apply_tool_result, apply_tool_results,
}

abbrev pub flag : ToolResult → ToolCall → ToolCall
flag result call = record call { is_error = result.is_error }

-- What a search by `id` finds after the result has been written.
abbrev pub after_result : ToolResult → String → Option ToolCall → Option ToolCall
after_result result id found =
    if str_eq result.tool_use_id id then Option.map (flag result) found else found

mark_call-none :
    (r : ToolResult) (calls : List ToolCall)
    → mark_call r calls ≡ none
    → find_call r.tool_use_id calls ≡ none
unfolding mark_call find_call
mark_call-none r [] h = refl
mark_call-none r (c ∷ cs) h = ground (arith, mark_call-none r cs)

mark_call-some :
    (r : ToolResult) (id : String) (calls : List ToolCall) {marked : List ToolCall}
    → mark_call r calls ≡ some marked
    → (find_call id marked ≡ after_result r id (find_call id calls))
      × (is_some (find_call r.tool_use_id calls) ≡ true)
unfolding mark_call find_call
mark_call-some r id [] h = absurd (ground arith)
mark_call-some r id (c ∷ cs) h = elim (Bool-cases (str_eq c.id r.tool_use_id)) [
  | inl e ↦ (
    ground (arith, eq_iff c.id r.tool_use_id, eq_iff r.tool_use_id id, eq_iff c.id id),
    ground arith,
  )
  | inr e ↦ elim (Option-cases (mark_call r cs)) [
    | inl missing ↦ absurd (ground arith)
    | inr (rest, there) ↦
        let (found, hit) = mark_call-some r id cs there in
        (
          ground (arith, found, eq_iff c.id r.tool_use_id, eq_iff r.tool_use_id id, eq_iff c.id id),
          ground (arith, hit),
        )
  ]
]

mark_newest-none :
    (r : ToolResult) (ts : List Turn)
    → mark_newest r ts ≡ none
    → find_newest r.tool_use_id ts ≡ none
unfolding mark_newest find_newest mark_call
mark_newest-none r [] h = refl
mark_newest-none r (t ∷ ts) h = elim (Option-cases (mark_newest r ts)) [
  | inl missing ↦
      rw (mark_newest-none r ts missing, find_newest) (mark_call-none r t.tool_calls (ground arith))
  | inr (rest, there) ↦ absurd (ground arith)
]

mark_newest-some :
    (r : ToolResult) (id : String) (ts : List Turn) {marked : List Turn}
    → mark_newest r ts ≡ some marked
    → (find_newest id marked ≡ after_result r id (find_newest id ts))
      × (is_some (find_newest r.tool_use_id ts) ≡ true)
unfolding mark_newest find_newest
mark_newest-some r id [] h = absurd (ground arith)
mark_newest-some r id (t ∷ ts) h = elim (Option-cases (mark_newest r ts)) [
  | inr (rest, there) ↦
      let (found, hit) = mark_newest-some r id ts there in
      (ground (arith, found, hit, eq_iff r.tool_use_id id), ground (arith, hit))
  | inl missing ↦ elim (Option-cases (mark_call r t.tool_calls)) [
    | inl none_here ↦ absurd (ground arith)
    | inr (calls, there) ↦
        let (found, hit) = mark_call-some r id t.tool_calls there in
        let gone = mark_newest-none r ts missing in
        (ground (arith, found, hit, gone, eq_iff r.tool_use_id id), ground (arith, hit, gone))
  ]
]

-- After a tool result has been applied, the search that `findToolCall` makes for the result's id
-- finds the same call as before with its error flag set to the result's; where it found none it
-- finds none. Of every other id it finds what it found before.
pub find_tool_call-apply_tool_result :
    (active : Option Turn) (finished : TurnBuffer) (r : ToolResult) (id : String)
    → let (active', finished') = apply_tool_result active finished r in
      find_tool_call active' finished' id ≡ (
        if str_eq r.tool_use_id id
        then Option.map (flag r) (find_tool_call active finished id)
        else find_tool_call active finished id)
unfolding apply_tool_result find_tool_call
find_tool_call-apply_tool_result none finished r id =
    elim (Option-cases (mark_newest r finished.items)) [
      | inl missing ↦
          ground
            (arith, missing, mark_newest-none r finished.items missing, eq_iff r.tool_use_id id)
      | inr (items, there) ↦ ground (arith, there, mark_newest-some r id finished.items there)
    ]
find_tool_call-apply_tool_result (some active) finished r id =
    elim (Option-cases (mark_call r active.tool_calls)) [
      | inr (calls, there) ↦
          let (found, hit) = mark_call-some r id active.tool_calls there in
          ground (arith, there, found, hit, eq_iff r.tool_use_id id)
      | inl missing ↦
          let gone = mark_call-none r active.tool_calls missing in
          elim (Option-cases (mark_newest r finished.items)) [
            | inl none_there ↦ ground (
              arith,
              missing,
              none_there,
              gone,
              mark_newest-none r finished.items none_there,
              eq_iff r.tool_use_id id,
            )
            | inr (items, there) ↦
                let (found, hit) = mark_newest-some r id finished.items there in
                ground (arith, missing, there, gone, found, hit, eq_iff r.tool_use_id id)
          ]
    ]

length-mark_newest :
    (r : ToolResult) (ts : List Turn) {marked : List Turn}
    → mark_newest r ts ≡ some marked
    → length marked ≡ length ts
unfolding mark_newest
length-mark_newest r [] h = absurd (ground arith)
length-mark_newest r (t ∷ ts) h = elim (Option-cases (mark_newest r ts)) [
  | inr (rest, there) ↦ ground (arith, length-mark_newest r ts there)
  | inl missing ↦ elim (Option-cases (mark_call r t.tool_calls)) [
    | inr (calls, there) ↦ ground (arith, there)
    | inl none_here ↦ absurd (ground arith)
  ]
]

-- Results keep the ring's capacity and the number of its turns.
apply_tool_result-size :
    (active : Option Turn) (finished : TurnBuffer) (r : ToolResult)
    → ((apply_tool_result active finished r).1.capacity ≡ finished.capacity)
      × (length (apply_tool_result active finished r).1.items ≡ length finished.items)
unfolding apply_tool_result
apply_tool_result-size active finished r = elim (Option-cases (mark_newest r finished.items)) [
  | inl missing ↦ ground (arith, missing)
  | inr (items, there) ↦ ground (arith, there, length-mark_newest r finished.items there)
]

pub apply_tool_results-size :
    (active : Option Turn) (finished : TurnBuffer) (rs : List ToolResult)
    → ((apply_tool_results active finished rs).1.capacity ≡ finished.capacity)
      × (length (apply_tool_results active finished rs).1.items ≡ length finished.items)
unfolding apply_tool_results
apply_tool_results-size active finished [] = (refl, refl)
apply_tool_results-size active finished (r ∷ rs) =
    let (active', finished') = apply_tool_result active finished r in
    let (c, n) = apply_tool_result-size active finished r in
    let (c', n') = apply_tool_results-size active' finished' rs in (c' ∙ c, n' ∙ n)
