-- ===== src/Claude/Fine.antt =====
-- claude/parser.go: what every line keeps of the parser and what its turn carries.
use mathlib.Core.Option
use mathlib.Core.Path.{subst}
use peek_mcp.Prelude.{
  ℕ, ◌+◌, ◌≤◌, ◌≡◌, refl, sym, ap, ◌∙◌, String, not, ◌&&◌, ◌||◌, List, [], ◌∷◌, Option, none, some,
  arith, length, leb, str_eq, is_empty, is_some, Bool-cases, Option-cases, inl, inr, if◌then◌else◌,
}
use peek_mcp.Prelude.Assoc.{erase, length-insert-le, length-erase-le}
use peek_mcp.Prelude.Text.{has_prefix, trim_space}
use peek_mcp.Session.Event.{Event}
use peek_mcp.Session.Turn
use peek_mcp.Session.Turn.{Turn, FileTouch, ToolResult, is_filled}
use peek_mcp.Store.Sound.AddTurn.{UsageIsWords}
use peek_mcp.Claude.Entry.{
  Entry, ContentBlock, Message, Attachment, validate_message, entry_type_user,
  entry_type_queue_operation, entry_type_assistant, entry_type_attachment, entry_type_custom_title,
}
use peek_mcp.Claude.Decoder.{Decoder}
use peek_mcp.Claude.Content.{
  PendingToolUse, content_blocks, content_type_tool_result, content_type_tool_use,
  extract_text_blocks, to_session_usage, tool_calls_of,
}
use peek_mcp.Claude.Events.{is_plan_attachment, plan_mode_events, skill_event, task_completed_event}
use peek_mcp.Claude.State.{
  Parser, max_pending_tools, remember_tool_use, events_from_assistant_blocks,
  events_from_user_blocks, events_from_user_content, permission_mode_event, permission_mode_default,
}
use peek_mcp.Claude.Parser.{
  event_turn, if_valid, checked_message, handle_user_message, handle_user, handle_assistant_message,
  handle_assistant, attachment_turn, handle_attachment, handle_custom_title, handle_queue_operation,
  handle_sidechain_message, handle_sidechain, handle_entry, checked_entry, parse_line,
  origin_from_entry,
}

-- The counts of a decoded message are 64-bit words, as the fields of the struct are `int`s.
abbrev pub DecodesWords : Decoder → Type 0
DecodesWords d =
    (text : String) (message : Message)
    → d.message text ≡ some message
    → UsageIsWords (to_session_usage message.usage)

-- A turn carries the session of its entry, and 64-bit counts.
abbrev Carries : Entry → Option Turn → Type 0
Carries entry none = Unit
Carries entry (some turn) =
    (Option.map (λ meta. meta.session_id) turn.meta ≡ some entry.session_id)
    × UsageIsWords turn.usage

event_turn-Carries :
    (entry : Entry) (events : List Event) (results : List ToolResult) (touches : List FileTouch)
    → Carries entry (event_turn entry events results touches)
unfolding event_turn
event_turn-Carries entry events results touches =
    elim (Bool-cases
      (not (is_filled events) && not (is_filled touches) && not (is_filled results))) [
        | inl e ↦ rw (e, event_turn) tt
        | inr e ↦ rw (e, event_turn) (refl, tt)
      ]

if_valid-Carries :
    (entry : Entry) (turn : Turn) → Carries entry (some turn) → Carries entry (if_valid turn)
if_valid-Carries entry turn h = elim (Bool-cases (is_some (Turn.validate (some turn)))) [
  | inl e ↦ subst (Carries entry) (sym (ap (λ b. if b then none else some turn) e)) tt
  | inr e ↦ subst (Carries entry) (sym (ap (λ b. if b then none else some turn) e)) h
]

attachment_turn-Carries :
    (entry : Entry) (attachment : Option Attachment)
    → Carries entry (attachment_turn entry attachment)
attachment_turn-Carries entry none = tt
attachment_turn-Carries entry (some attachment) =
    elim (Bool-cases (not (is_plan_attachment attachment.type))) [
      | inl e ↦ rw e tt
      | inr e ↦ elim (Bool-cases (is_empty attachment.plan_file_path)) [
        | inl f ↦
            rw (e, f) (event_turn-Carries entry (plan_mode_events attachment.type entry) [] [])
        | inr f ↦ rw (e, f) (refl, tt)
      ]
    ]

handle_attachment-Carries :
    (d : Decoder) (entry : Entry) → Carries entry (handle_attachment d entry)
unfolding handle_attachment
handle_attachment-Carries d entry =
    elim (Bool-cases (is_empty entry.session_id || is_empty entry.attachment_raw)) [
      | inl e ↦ rw (e, handle_attachment) tt
      | inr e ↦
          rw (e, handle_attachment)
            (attachment_turn-Carries entry (d.attachment entry.attachment_raw))
    ]

handle_custom_title-Carries : (entry : Entry) → Carries entry (handle_custom_title entry)
unfolding handle_custom_title
handle_custom_title-Carries entry = elim (Bool-cases (is_empty entry.custom_title)) [
  | inl e ↦ rw (e, handle_custom_title) tt
  | inr e ↦ rw (e, handle_custom_title) (refl, tt)
]

handle_queue_operation-Carries : (entry : Entry) → Carries entry (handle_queue_operation entry)
unfolding handle_queue_operation
handle_queue_operation-Carries entry =
    elim (Bool-cases (
      not (str_eq entry.operation "enqueue")
      || not (has_prefix entry.content "<task-notification>"))) [
        | inl e ↦ rw (e, handle_queue_operation) tt
        | inr e ↦
            rw (e, handle_queue_operation)
              (event_turn-Carries entry (task_completed_event entry ∷ []) [] [])
      ]

-- A message that passes its check was decoded.
checked_message-decoded :
    (d : Decoder) (entry : Entry) (message : Message)
    → checked_message d entry ≡ some message
    → d.message entry.message ≡ some message
checked_message-decoded d entry message e = elim (Option-cases (d.message entry.message)) [
  | inl f ↦ absurd (ground (arith, sym (ap check f) ∙ e))
  | inr (found, f) ↦ elim (Bool-cases (is_some (validate_message found))) [
    | inl g ↦
        let gone : check (some found) ≡ none = rw g refl in
        absurd (ground (arith, sym gone ∙ (sym (ap check f) ∙ e)))
    | inr g ↦
        let kept : check (some found) ≡ some found = rw g refl in
        f ∙ sym kept ∙ sym (ap check f) ∙ e
  ]
]
  where
    check : Option Message → Option Message
    check none = none
    check (some found) = if is_some (validate_message found) then none else some found

-- The bound on the tool uses that wait, at least the code's.
module _ (n : ℕ) (room : 64 ≤ n) where
  abbrev Bounded : Parser → Type 0
  Bounded p = length p.pending_tools ≤ n

  remember_tool_use-Bounded :
      (p : Parser) (block : ContentBlock) → Bounded p → Bounded (remember_tool_use p block)
  unfolding remember_tool_use
  remember_tool_use-Bounded p block h = elim (Bool-cases (is_empty block.id)) [
    | inl e ↦ rw e h
    | inr e ↦
        let waiting : PendingToolUse = record { input = block.input; name = block.name } in
        elim (Bool-cases (leb max_pending_tools (length p.pending_tools))) [
          | inl f ↦ rw (e, f) (omega (arith, length-insert-le block.id waiting []))
          | inr f ↦ rw (e, f) (ground (arith, length-insert-le block.id waiting p.pending_tools))
        ]
  ]

  events_from_assistant_blocks-Bounded :
      (d : Decoder) (entry : Entry) (p : Parser) (blocks : List ContentBlock)
      → Bounded p
      → Bounded (events_from_assistant_blocks d entry p blocks).0
  unfolding events_from_assistant_blocks
  events_from_assistant_blocks-Bounded d entry p [] h = h
  events_from_assistant_blocks-Bounded d entry p (block ∷ blocks) h =
      elim (Bool-cases (str_eq block.type content_type_tool_use)) [
        | inl e ↦ rw e (
            events_from_assistant_blocks-Bounded d entry (remember_tool_use p block) blocks
              (remember_tool_use-Bounded p block h))
        | inr e ↦ rw e (events_from_assistant_blocks-Bounded d entry p blocks h)
      ]

  events_from_user_blocks-Bounded :
      (d : Decoder) (entry : Entry) (p : Parser) (blocks : List ContentBlock)
      → Bounded p
      → Bounded (events_from_user_blocks d entry p blocks).0
  unfolding events_from_user_blocks
  events_from_user_blocks-Bounded d entry p [] h = h
  events_from_user_blocks-Bounded d entry p (block ∷ blocks) h =
      elim (Bool-cases (str_eq block.type content_type_tool_result)) [
        | inl e ↦
            rw (e, events_from_user_blocks)
              (events_from_user_blocks-Bounded d entry
                (record p { pending_tools = erase block.tool_use_id p.pending_tools }) blocks
                (omega (arith, length-erase-le block.tool_use_id p.pending_tools)))
        | inr e ↦
            rw (e, events_from_user_blocks) (events_from_user_blocks-Bounded d entry p blocks h)
      ]

  permission_mode_event-Bounded :
      (p : Parser) (entry : Entry) → Bounded p → Bounded (permission_mode_event p entry).0
  unfolding permission_mode_event
  permission_mode_event-Bounded p entry h =
      elim (Bool-cases
        (is_empty entry.permission_mode || str_eq entry.permission_mode p.permission_mode)) [
          | inl e ↦ rw (e, permission_mode_event) h
          | inr e ↦
              elim (Bool-cases (
                is_empty p.permission_mode
                && str_eq entry.permission_mode permission_mode_default)) [
                  | inl f ↦ rw (e, permission_mode_event, f) h
                  | inr f ↦ rw (e, permission_mode_event, f) h
                ]
        ]

  abbrev Fine : Entry → Parser × Option Turn → Type 0
  Fine entry (p, turn) = Bounded p × Carries entry turn

  handle_user_message-Fine :
      (d : Decoder) (p : Parser) (entry : Entry) (message : Message)
      → Bounded p
      → Fine entry (handle_user_message d p entry message)
  unfolding handle_user_message
  handle_user_message-Fine d p entry message h =
      let found = events_from_user_content d p entry message in
      let bounded =
        permission_mode_event-Bounded found.0 entry
          (events_from_user_blocks-Bounded d entry p (content_blocks d message.content) h) in
      let text = extract_text_blocks d message.content in
      elim (Bool-cases (not (is_empty entry.prompt_id) && not (is_empty (trim_space text)))) [
        | inl e ↦ rw (e, handle_user_message) (bounded, if_valid-Carries entry _ (refl, tt))
        | inr e ↦ rw (e, handle_user_message) (bounded, event_turn-Carries entry _ _ _)
      ]

  handle_user-Fine :
      (d : Decoder) (p : Parser) (entry : Entry) → Bounded p → Fine entry (handle_user d p entry)
  unfolding handle_user
  handle_user-Fine d p entry h = elim (Bool-cases (is_empty entry.message)) [
    | inl e ↦ rw (e, handle_user) (h, tt)
    | inr e ↦ elim (Option-cases (checked_message d entry)) [
      | inl f ↦ rw (e, handle_user, f) (h, tt)
      | inr (message, f) ↦ rw (e, handle_user, f) (handle_user_message-Fine d p entry message h)
    ]
  ]

  handle_assistant-Fine :
      (d : Decoder) (p : Parser) (entry : Entry)
      → DecodesWords d
      → Bounded p
      → Fine entry (handle_assistant d p entry)
  unfolding handle_assistant handle_assistant_message
  handle_assistant-Fine d p entry words h = elim (Option-cases (checked_message d entry)) [
    | inl f ↦ rw (f, handle_assistant) (h, tt)
    | inr (message, f) ↦
        let counts = words entry.message message (checked_message-decoded d entry message f) in
        rw (f, handle_assistant)
          (
            events_from_assistant_blocks-Bounded d entry p (content_blocks d message.content) h,
            if_valid-Carries entry _ (refl, counts),
          )
  ]

  handle_sidechain-Fine :
      (d : Decoder) (p : Parser) (entry : Entry)
      → DecodesWords d
      → Bounded p
      → Fine entry (handle_sidechain d p entry)
  unfolding handle_sidechain handle_sidechain_message
  handle_sidechain-Fine d p entry words h = elim (Bool-cases (is_empty entry.agent_id)) [
    | inl e ↦ rw (e, handle_sidechain) (h, tt)
    | inr e ↦ elim (Option-cases (d.message entry.message)) [
      | inl f ↦ rw (e, handle_sidechain, f) (h, tt)
      | inr (message, f) ↦ elim (Bool-cases (str_eq entry.type entry_type_user)) [
        | inl g ↦
            rw (e, handle_sidechain, f, g)
              (
                events_from_user_blocks-Bounded d entry p (content_blocks d message.content) h,
                (refl, tt),
              )
        | inr g ↦ elim (Bool-cases (str_eq entry.type entry_type_assistant)) [
          | inl i ↦
              rw (e, handle_sidechain, f, g, i)
                (
                  events_from_assistant_blocks-Bounded d entry p (content_blocks d message.content)
                      h,
                  (refl, words entry.message message f),
                )
          | inr i ↦ rw (e, handle_sidechain, f, g, i) (h, (refl, tt))
        ]
      ]
    ]
  ]

  handle_entry-Fine :
      (d : Decoder) (p : Parser) (entry : Entry)
      → DecodesWords d
      → Bounded p
      → Fine entry (handle_entry d p entry)
  unfolding handle_entry task_completed_event events_from_assistant_blocks origin_from_entry
      tool_calls_of skill_event plan_mode_events handle_custom_title
  handle_entry-Fine d p entry words h = elim (Bool-cases entry.is_sidechain) [
    | inl e ↦ rw (e, handle_entry) (handle_sidechain-Fine d p entry words h)
    | inr e ↦ elim (Bool-cases (str_eq entry.type entry_type_user)) [
      | inl f ↦ rw (e, handle_entry, f) (handle_user-Fine d p entry h)
      | inr f ↦ elim (Bool-cases (str_eq entry.type entry_type_queue_operation)) [
        | inl g ↦ rw (e, handle_entry, f, g) (h, handle_queue_operation-Carries entry)
        | inr g ↦ elim (Bool-cases (str_eq entry.type entry_type_assistant)) [
          | inl i ↦ rw (e, handle_entry, f, g, i) (handle_assistant-Fine d p entry words h)
          | inr i ↦ elim (Bool-cases (str_eq entry.type entry_type_attachment)) [
            | inl j ↦ rw (e, handle_entry, f, g, i, j) (h, handle_attachment-Carries d entry)
            | inr j ↦ elim (Bool-cases (str_eq entry.type entry_type_custom_title)) [
              | inl k ↦ rw (e, handle_entry, f, g, i, j, k) (h, handle_custom_title-Carries entry)
              | inr k ↦ rw (e, handle_entry, f, g, i, j, k) (h, tt)
            ]
          ]
        ]
      ]
    ]
  ]

  -- What a line leaves and gives, for the entry that it holds.
  abbrev Parsed : Decoder → List ℕ → Parser × Option Turn → Type 0
  Parsed d line (p, turn) =
      Bounded p
      × ((found : Turn)
          → turn ≡ some found
          → (entry : Entry) × (checked_entry d line ≡ some entry) × Carries entry (some found))

  parse_line-Parsed :
      (d : Decoder) (p : Parser) (line : List ℕ)
      → DecodesWords d
      → Bounded p
      → Parsed d line (parse_line d p line)
  unfolding parse_line
  parse_line-Parsed d p line words h = elim (Option-cases (checked_entry d line)) [
    | inl e ↦ rw (e, parse_line) (h, λ found f. absurd (ground arith))
    | inr (entry, e) ↦
        let (bounded, carries) = handle_entry-Fine d p entry words h in
        let ran : parse_line d p line ≡ handle_entry d p entry = rw (e, parse_line) refl in
        subst (Parsed d line) (sym ran)
          (bounded, λ found f. (entry, e, subst (Carries entry) f carries))
  ]

-- Every line leaves at most 64 tool uses waiting for their results, if there were no more; a turn
-- that it gives comes from an entry that passes its check, whose session it carries, with 64-bit
-- counts if those of the decoded messages are.
pub parse_line-keeps_tools :
    (d : Decoder) (p : Parser) (line : List ℕ)
    → DecodesWords d
    → length p.pending_tools ≤ max_pending_tools
    → (length (parse_line d p line).0.pending_tools ≤ max_pending_tools)
      × ((turn : Turn)
          → (parse_line d p line).1 ≡ some turn
          → (entry : Entry) × (checked_entry d line ≡ some entry)
            × ((Option.map (λ meta. meta.session_id) turn.meta ≡ some entry.session_id)
                × UsageIsWords turn.usage))
parse_line-keeps_tools d p line words h = parse_line-Parsed 64 (omega arith) d p line words h

-- The counts alone, for any number of waiting tool uses.
pub parse_line-UsageIsWords :
    (d : Decoder) (p : Parser) (line : List ℕ) (turn : Turn)
    → DecodesWords d
    → (parse_line d p line).1 ≡ some turn
    → UsageIsWords turn.usage
parse_line-UsageIsWords d p line turn words e =
    let n = 64 + length p.pending_tools in
    let (bounded, carries) = parse_line-Parsed n (omega arith) d p line words (omega arith) in
    let (entry, held, carried) = carries turn e in carried.1
