-- ===== src/Claude/Uses.antt =====
-- claude/parser.go: a tool use and its result.
use peek_mcp.Prelude.{
  ◌≡◌, refl, sym, ap, ◌∙◌, String, true, false, ◌&&◌, List, [], ◌∷◌, ◌++◌, Option, none, some,
  length, leb, str_eq, eq_refl, eq_iff, is_empty, arith, Bool-cases, inl, inr, if◌then◌else◌,
}
use peek_mcp.Prelude.Assoc.{lookup, insert, erase, lookup-insert, lookup-erase}
use peek_mcp.Session.Event.{Event}
use peek_mcp.Session.Turn.{FileTouch}
use peek_mcp.Claude.Entry.{Entry, ContentBlock}
use peek_mcp.Claude.Decoder.{Decoder}
use peek_mcp.Claude.Content.{PendingToolUse, content_type_tool_result, file_touch_from_result}
use peek_mcp.Claude.Events.{tool_result_event}
use peek_mcp.Claude.State.{
  Parser, max_pending_tools, remember_tool_use, cons_some, of_tool_result, result_event,
  result_touch, events_from_user_blocks,
}

abbrev pub use_of : ContentBlock → PendingToolUse
use_of block = record { input = block.input; name = block.name }

-- A tool use is remembered under its id, also where the parser forgets the others for it.
lookup-remember_tool_use :
    (p : Parser) (block : ContentBlock)
    → is_empty block.id ≡ false
    → lookup block.id (remember_tool_use p block).pending_tools ≡ some (use_of block)
unfolding remember_tool_use
lookup-remember_tool_use p block h =
    let rest = if leb max_pending_tools (length p.pending_tools) then [] else p.pending_tools in
    let kept : (remember_tool_use p block).pending_tools ≡ insert block.id (use_of block) rest =
      rw h refl in
    ap (lookup block.id) kept
    ∙ lookup-insert block.id block.id (use_of block) rest
    ∙ ap (λ b. if b then some (use_of block) else lookup block.id rest) (eq_refl block.id)

-- A result without a denial.
of_tool_result-allowed :
    (d : Decoder) (entry : Entry) (block : ContentBlock) (pending : Option PendingToolUse)
    → is_empty entry.tool_denial_kind ≡ true
    → of_tool_result d entry block pending
      ≡ (result_event d entry block pending, result_touch d block pending)
unfolding of_tool_result
of_tool_result-allowed d entry block pending h = rw h refl

-- The parser after a result.
abbrev pub taken : Parser → String → Parser
taken p id = record p { pending_tools = erase id p.pending_tools }

-- No block is a result with the id.
abbrev pub AwaitsIn : String → List ContentBlock → Type 0
AwaitsIn id [] = Unit
AwaitsIn id (block ∷ blocks) =
    ((str_eq block.type content_type_tool_result && str_eq block.tool_use_id id) ≡ false)
    × AwaitsIn id blocks

-- What some blocks give, then what the blocks after them give.
abbrev pub chain :
    Parser × List Event × List FileTouch
    → Parser × List Event × List FileTouch
    → Parser × List Event × List FileTouch
chain first next = (next.0, first.1 ++ next.1, first.2 ++ next.2)

cons_some-append :
    {A : Type 0} (o : Option A) (xs ys : List A) → cons_some o xs ++ ys ≡ cons_some o (xs ++ ys)
cons_some-append none xs ys = refl
cons_some-append (some x) xs ys = refl

module _ (d : Decoder) (entry : Entry) where
  blocks-append :
      (p : Parser) (before after : List ContentBlock)
      → events_from_user_blocks d entry p (before ++ after)
        ≡ chain
            (events_from_user_blocks d entry p before)
            (events_from_user_blocks d entry (events_from_user_blocks d entry p before).0 after)
  unfolding events_from_user_blocks
  blocks-append p [] after = refl
  blocks-append p (block ∷ before) after =
      elim (Bool-cases (str_eq block.type content_type_tool_result)) [
        | inl e ↦
            let pending = lookup block.tool_use_id p.pending_tools in
            let (event, touch) = of_tool_result d entry block pending in
            let p₁ = taken p block.tool_use_id in
            let (p₂, events, touches) = events_from_user_blocks d entry p₁ before in
            let (p₃, events', touches') = events_from_user_blocks d entry p₂ after in
            rw (e, blocks-append p₁ before after)
              (λ i. (
                p₃,
                sym (cons_some-append event events events') i,
                sym (cons_some-append touch touches touches') i,
              ))
        | inr e ↦ rw (e, blocks-append p before after) refl
      ]

  -- A use waits until a block is its result.
  still_waits :
      (p : Parser) (id : String) (blocks : List ContentBlock)
      → AwaitsIn id blocks
      → lookup id (events_from_user_blocks d entry p blocks).0.pending_tools
        ≡ lookup id p.pending_tools
  unfolding events_from_user_blocks
  still_waits p id [] h = refl
  still_waits p id (block ∷ blocks) (other, h) =
      elim (Bool-cases (str_eq block.type content_type_tool_result)) [
        | inl e ↦
            let apart : str_eq block.tool_use_id id ≡ false = rw e at other in
            rw e (
              still_waits (taken p block.tool_use_id) id blocks h
              ∙ lookup-erase block.tool_use_id id p.pending_tools
              ∙ ap (λ b. if b then none else lookup id p.pending_tools) apart)
        | inr e ↦ rw e (still_waits p id blocks h)
      ]

  -- No block brings a use.
  still_gone :
      (p : Parser) (id : String) (blocks : List ContentBlock)
      → lookup id p.pending_tools ≡ none
      → lookup id (events_from_user_blocks d entry p blocks).0.pending_tools ≡ none
  unfolding events_from_user_blocks
  still_gone p id [] h = h
  still_gone p id (block ∷ blocks) h =
      elim (Bool-cases (str_eq block.type content_type_tool_result)) [
        | inl e ↦ rw e (
            still_gone (taken p block.tool_use_id) id blocks
              (lookup-erase block.tool_use_id id p.pending_tools ∙ ground (arith, h)))
        | inr e ↦ rw e (still_gone p id blocks h)
      ]

  result-first :
      (p : Parser) (result : ContentBlock) (blocks : List ContentBlock) (pending : PendingToolUse)
      → str_eq result.type content_type_tool_result ≡ true
      → is_empty entry.tool_denial_kind ≡ true
      → lookup result.tool_use_id p.pending_tools ≡ some pending
      → let (p', events, touches) =
          events_from_user_blocks d entry (taken p result.tool_use_id) blocks in
        events_from_user_blocks d entry p (result ∷ blocks) ≡ (
          p',
          cons_some (tool_result_event d result entry pending) events,
          cons_some (file_touch_from_result d result pending) touches,
        )
  unfolding events_from_user_blocks
  result-first p result blocks pending t a l =
      rw (t, l, of_tool_result-allowed d entry result (some pending) a) refl

  -- A tool use with an id that was remembered is taken by the first block of a message that is its
  -- result, in an entry without a denial: between what the blocks before it and the blocks after it
  -- give, the message gives the event and the file touch of the use, and the use waits no longer.
  pub events_from_user_blocks-used :
      (p : Parser) (block result : ContentBlock) (before after : List ContentBlock)
      → is_empty block.id ≡ false
      → str_eq result.type content_type_tool_result ≡ true
      → result.tool_use_id ≡ block.id
      → is_empty entry.tool_denial_kind ≡ true
      → AwaitsIn block.id before
      → let waiting = remember_tool_use p block in
        let (p₁, events, touches) = events_from_user_blocks d entry waiting before in
        let (p₂, events', touches') =
          events_from_user_blocks d entry (taken p₁ result.tool_use_id) after in
        (events_from_user_blocks d entry waiting (before ++ result ∷ after) ≡ (
          p₂,
          events ++ cons_some (tool_result_event d result entry (use_of block)) events',
          touches ++ cons_some (file_touch_from_result d result (use_of block)) touches',
        ))
        × (lookup block.id p₂.pending_tools ≡ none)
  events_from_user_blocks-used p block result before after h t same a awaits =
      let waiting = remember_tool_use p block in
      let id = result.tool_use_id in
      let p₁ = (events_from_user_blocks d entry waiting before).0 in
      let there : lookup id p₁.pending_tools ≡ some (use_of block) =
        ap (λ k. lookup k p₁.pending_tools) same
        ∙ still_waits waiting block.id before awaits
        ∙ lookup-remember_tool_use p block h in
      let gone : lookup block.id (taken p₁ id).pending_tools ≡ none =
        lookup-erase id block.id p₁.pending_tools
        ∙ ap (λ b. if b then none else lookup block.id p₁.pending_tools)
            ((eq_iff id block.id).1 same) in
      (
        blocks-append waiting before (result ∷ after)
            ∙ ap (chain (events_from_user_blocks d entry waiting before))
                (result-first p₁ result after (use_of block) t a there),
        still_gone (taken p₁ id) block.id after gone,
      )
