-- ===== src/Codex/Fine.antt =====
-- codex/parser.go: what every line keeps of the parser and what its turn carries.
use mathlib.Core.Option
use mathlib.Core.Path.{subst}
use peek_mcp.Prelude.{
  ℕ, ◌+◌, ◌≤◌, ◌≡◌, refl, sym, ap, ◌∙◌, String, Bool, true, false, not, ◌||◌, List, [], Option,
  none, some, arith, length, leb, str_eq, is_empty, is_some, Bool-cases, Option-cases, inl, inr,
  if◌then◌else◌,
}
use peek_mcp.Prelude.Assoc.{lookup, length-insert-le, length-erase-le}
use peek_mcp.Session.Meta.{role_user, role_assistant}
use peek_mcp.Session.Turn.{Turn}
use peek_mcp.Session.Usage.Laws.{IsWords}
use peek_mcp.Store.Sound.AddTurn.{UsageIsWords}
use peek_mcp.Codex.Entry.{
  Entry, EventMessage, ResponseItem, SessionMeta, TokenUsage, event_type_token_count,
  entry_type_session_meta, entry_type_turn_context, entry_type_response_item,
  entry_type_event_message, is_subagent, total_of, validate_entry, validate_event_message,
  validate_response_item, validate_session_meta, validate_turn_context,
}
use peek_mcp.Codex.Decoder.{Decoder, unmarshal_session_meta}
use peek_mcp.Codex.Plan.{extract_proposed_plan}
use peek_mcp.Codex.State.{
  Parser, EscalatedCall, max_pending_calls, convert_usage, extract_text, codex_input_text_type,
  codex_output_text_type, function_call_type, function_call_output_type, codex_message_type,
  exec_command_tool, sandbox_require_escalated,
}
use peek_mcp.Codex.Parser.{
  handle_subagent_meta, take_session_meta, checked, handle_session_meta, handle_turn_context,
  exec_args_of, store_call, remember_escalated_call, verdict_turn, handle_function_call_output,
  handle_function_item, handle_user_message, handle_assistant_message, take_response_item,
  handle_response_item, handle_event_message, handle_entry, parse_line,
}

-- The counts of a decoded total are 64-bit words, as the fields of the struct are `int`s.
abbrev pub DecodesWords : Decoder → Type 0
DecodesWords d =
    (payload : String) (message : EventMessage) (total : TokenUsage)
    → d.event_message payload ≡ some message
    → total_of message.info ≡ some total
    → IsWords (convert_usage total)

-- What passes its check was decoded.
decoded-checked {ℓ} :
    {A : Type ℓ} (validate : A → Option String) (o : Option A) (x : A)
    → checked validate o ≡ some x
    → o ≡ some x
decoded-checked validate none x e = absurd (ground arith)
decoded-checked validate (some y) x e = elim (Option-cases (validate y)) [
  | inl f ↦ sym (ap (λ o. if is_some o then none else some y) f) ∙ e
  | inr (message, f) ↦
      let gone : checked validate (some y) ≡ none =
        ap (λ o. if is_some o then none else some y) f in
      absurd (ground (arith, sym gone ∙ e))
]

-- A turn carries the session of the parser, and 64-bit counts.
abbrev Carries : Parser → Option Turn → Type 0
Carries p none = Unit
Carries p (some turn) =
    (Option.map (λ meta. meta.session_id) turn.meta ≡ some p.session_id) × UsageIsWords turn.usage

-- The bound on the calls that wait, at least the code's.
module _ (n : ℕ) (room : 64 ≤ n) where
  abbrev Bounded : Parser → Type 0
  Bounded p = length p.pending_escalated ≤ n

  abbrev Fine : Parser × Option Turn → Type 0
  Fine (p, turn) = Bounded p × Carries p turn

  Fine-if :
      (test : Bool) (x y : Parser × Option Turn) → Fine x → Fine y → Fine (if test then x else y)
  Fine-if true x y h k = h
  Fine-if false x y h k = k

  take_session_meta-Fine :
      (p : Parser) (meta : SessionMeta) (ts : ℕ) → Bounded p → Fine (take_session_meta p meta ts)
  unfolding take_session_meta handle_subagent_meta
  take_session_meta-Fine p meta ts h =
      Fine-if (is_subagent meta.source) _ _
        (Fine-if (is_empty meta.source.parent_thread_id) _ _ (h, tt) (h, (refl, tt)))
        (h, (refl, tt))

  handle_session_meta-Fine :
      (d : Decoder) (p : Parser) (payload : String) (ts : ℕ)
      → Bounded p
      → Fine (handle_session_meta d p payload ts)
  unfolding handle_session_meta
  handle_session_meta-Fine d p payload ts h =
      elim (Option-cases (checked validate_session_meta (unmarshal_session_meta d payload))) [
        | inl e ↦ rw (e, handle_session_meta) (h, tt)
        | inr (meta, e) ↦ rw (e, handle_session_meta) (take_session_meta-Fine p meta ts h)
      ]

  handle_turn_context-Bounded :
      (d : Decoder) (p : Parser) (payload : String)
      → Bounded p
      → Bounded (handle_turn_context d p payload)
  unfolding handle_turn_context
  handle_turn_context-Bounded d p payload h =
      elim (Option-cases (checked validate_turn_context (d.turn_context payload))) [
        | inl e ↦ rw (e, handle_turn_context) h
        | inr (context, e) ↦ elim (Bool-cases (is_empty context.model)) [
          | inl f ↦ rw (e, handle_turn_context, f) h
          | inr f ↦ rw (e, handle_turn_context, f) h
        ]
      ]

  store_call-Bounded :
      (p : Parser) (call_id : String) (call : EscalatedCall)
      → Bounded p
      → Bounded (store_call p call_id call)
  unfolding store_call
  store_call-Bounded p call_id call h =
      elim (Bool-cases (leb max_pending_calls (length p.pending_escalated))) [
        | inl e ↦ rw e (omega (arith, length-insert-le call_id call []))
        | inr e ↦ rw e (ground (arith, length-insert-le call_id call p.pending_escalated))
      ]

  remember_escalated_call-Bounded :
      (d : Decoder) (p : Parser) (item : ResponseItem)
      → Bounded p
      → Bounded (remember_escalated_call d p item)
  unfolding remember_escalated_call
  remember_escalated_call-Bounded d p item h =
      elim (Bool-cases (not (str_eq item.name exec_command_tool) || is_empty item.call_id)) [
        | inl e ↦ rw (e, remember_escalated_call) h
        | inr e ↦ elim (Option-cases (exec_args_of d item)) [
          | inl f ↦ rw (e, remember_escalated_call, f) h
          | inr (args, f) ↦
              elim (Bool-cases (not (str_eq args.sandbox_permissions sandbox_require_escalated))) [
                | inl g ↦ rw (e, remember_escalated_call, f, g) h
                | inr g ↦
                    rw (e, remember_escalated_call, f, g)
                      (store_call-Bounded p item.call_id
                        (record { cmd = args.cmd; justification = args.justification }) h)
              ]
        ]
      ]

  handle_function_call_output-Fine :
      (d : Decoder) (p : Parser) (item : ResponseItem) (ts : ℕ)
      → Bounded p
      → Fine (handle_function_call_output d p item ts)
  unfolding handle_function_call_output verdict_turn
  handle_function_call_output-Fine d p item ts h =
      elim (Option-cases (lookup item.call_id p.pending_escalated)) [
        | inl e ↦ rw (e, handle_function_call_output) (h, tt)
        | inr (call, e) ↦
            rw (e, handle_function_call_output)
              (omega (arith, length-erase-le item.call_id p.pending_escalated), (refl, tt))
      ]

  handle_user_message-Carries :
      (p : Parser) (item : ResponseItem) (ts : ℕ) → Carries p (handle_user_message p item ts)
  unfolding handle_user_message
  handle_user_message-Carries p item ts =
      elim (Bool-cases (is_empty (extract_text item.content codex_input_text_type))) [
        | inl e ↦ rw (e, handle_user_message) tt
        | inr e ↦ rw (e, handle_user_message) (refl, tt)
      ]

  handle_assistant_message-Carries :
      (p : Parser) (item : ResponseItem) (ts : ℕ) → Carries p (handle_assistant_message p item ts)
  unfolding handle_assistant_message
  handle_assistant_message-Carries p item ts =
      let text = extract_text item.content codex_output_text_type in
      elim (Bool-cases (is_empty text)) [
        | inl e ↦ rw (e, handle_assistant_message) tt
        | inr e ↦ elim (Bool-cases (is_empty (extract_proposed_plan text))) [
          | inl f ↦ rw (e, handle_assistant_message, f) (refl, tt)
          | inr f ↦ rw (e, handle_assistant_message, f) (refl, tt)
        ]
      ]

  handle_function_item-Fine :
      (d : Decoder) (p : Parser) (item : ResponseItem) (ts : ℕ)
      → Bounded p
      → Fine (handle_function_item d p item ts)
  unfolding handle_function_item
  handle_function_item-Fine d p item ts h =
      Fine-if (str_eq item.type function_call_type) (remember_escalated_call d p item, none)
        (if str_eq item.type function_call_output_type
          then handle_function_call_output d p item ts
          else (p, none))
        (remember_escalated_call-Bounded d p item h, tt)
        (Fine-if (str_eq item.type function_call_output_type)
          (handle_function_call_output d p item ts) (p, none)
          (handle_function_call_output-Fine d p item ts h) (h, tt))

  take_response_item-Fine :
      (d : Decoder) (p : Parser) (item : ResponseItem) (ts : ℕ)
      → Bounded p
      → Fine (take_response_item d p item ts)
  unfolding take_response_item
  take_response_item-Fine d p item ts h =
      elim (Bool-cases (not (str_eq item.type codex_message_type))) [
        | inl e ↦ rw (e, take_response_item) (handle_function_item-Fine d p item ts h)
        | inr e ↦ elim (Bool-cases (not (is_empty p.subagent_actor))) [
          | inl f ↦ rw (e, take_response_item, f) (h, tt)
          | inr f ↦ elim (Bool-cases (str_eq item.role role_user)) [
            | inl g ↦ rw (e, take_response_item, f, g) (h, handle_user_message-Carries p item ts)
            | inr g ↦ elim (Bool-cases (str_eq item.role role_assistant)) [
              | inl i ↦
                  rw (e, take_response_item, f, g, i)
                    (h, handle_assistant_message-Carries p item ts)
              | inr i ↦ rw (e, take_response_item, f, g, i) (h, tt)
            ]
          ]
        ]
      ]

  handle_response_item-Fine :
      (d : Decoder) (p : Parser) (payload : String) (ts : ℕ)
      → Bounded p
      → Fine (handle_response_item d p payload ts)
  unfolding handle_response_item
  handle_response_item-Fine d p payload ts h = elim (Bool-cases (is_empty p.session_id)) [
    | inl e ↦ rw (e, handle_response_item) (h, tt)
    | inr e ↦ elim (Option-cases (checked validate_response_item (d.response_item payload))) [
      | inl f ↦ rw (e, handle_response_item, f) (h, tt)
      | inr (item, f) ↦ rw (e, handle_response_item, f) (take_response_item-Fine d p item ts h)
    ]
  ]

  handle_event_message-Carries :
      (d : Decoder) (p : Parser) (payload : String) (ts : ℕ)
      → DecodesWords d
      → Carries p (handle_event_message d p payload ts)
  unfolding handle_event_message
  handle_event_message-Carries d p payload ts words =
      elim (Bool-cases (is_empty p.session_id || not (is_empty p.subagent_actor))) [
        | inl e ↦ rw (e, handle_event_message) tt
        | inr e ↦ elim (Option-cases (checked validate_event_message (d.event_message payload))) [
          | inl f ↦ rw (e, handle_event_message, f) tt
          | inr (message, f) ↦ elim (Bool-cases (str_eq message.type event_type_token_count)) [
            | inl g ↦ elim (Option-cases (total_of message.info)) [
              | inl i ↦ rw (e, handle_event_message, f, g, i) tt
              | inr (total, i) ↦
                  let decoded =
                    decoded-checked validate_event_message (d.event_message payload) message f in
                  rw (e, handle_event_message, f, g, i)
                    (refl, words payload message total decoded i)
            ]
            | inr g ↦ rw (e, handle_event_message, f, g) tt
          ]
        ]
      ]

  handle_entry-Fine :
      (d : Decoder) (p : Parser) (entry : Entry)
      → DecodesWords d
      → Bounded p
      → Fine (handle_entry d p entry)
  unfolding handle_entry
  handle_entry-Fine d p entry words h =
      elim (Bool-cases (str_eq entry.type entry_type_session_meta)) [
        | inl e ↦
            rw (e, handle_entry) (handle_session_meta-Fine d p entry.payload entry.timestamp h)
        | inr e ↦ elim (Bool-cases (str_eq entry.type entry_type_turn_context)) [
          | inl f ↦ rw (e, handle_entry, f) (handle_turn_context-Bounded d p entry.payload h, tt)
          | inr f ↦ elim (Bool-cases (str_eq entry.type entry_type_response_item)) [
            | inl g ↦
                rw (e, handle_entry, f, g)
                  (handle_response_item-Fine d p entry.payload entry.timestamp h)
            | inr g ↦ elim (Bool-cases (str_eq entry.type entry_type_event_message)) [
              | inl i ↦
                  rw (e, handle_entry, f, g, i)
                    (h, handle_event_message-Carries d p entry.payload entry.timestamp words)
              | inr i ↦ rw (e, handle_entry, f, g, i) (h, tt)
            ]
          ]
        ]
      ]

  parse_line-Fine :
      (d : Decoder) (p : Parser) (line : List ℕ)
      → DecodesWords d
      → Bounded p
      → Fine (parse_line d p line)
  unfolding parse_line
  parse_line-Fine d p line words h = elim (Option-cases (checked validate_entry (d.entry line))) [
    | inl e ↦ rw (e, parse_line) (h, tt)
    | inr (entry, e) ↦ rw (e, parse_line) (handle_entry-Fine d p entry words h)
  ]

-- Every line leaves at most 64 calls waiting for their verdicts, if there were no more, and a turn
-- that it gives carries the session that the parser is then in and 64-bit counts, if the decoded
-- totals are 64-bit words.
pub parse_line-keeps_calls :
    (d : Decoder) (p : Parser) (line : List ℕ)
    → DecodesWords d
    → length p.pending_escalated ≤ max_pending_calls
    → (length (parse_line d p line).0.pending_escalated ≤ max_pending_calls)
      × ((turn : Turn)
          → (parse_line d p line).1 ≡ some turn
          → (Option.map (λ meta. meta.session_id) turn.meta
              ≡ some (parse_line d p line).0.session_id)
            × UsageIsWords turn.usage)
parse_line-keeps_calls d p line words h =
    let (bounded, carries) = parse_line-Fine 64 (omega arith) d p line words h in
    (bounded, λ turn e. subst (Carries (parse_line d p line).0) e carries)

-- The same of the counts, for any number of waiting calls.
pub parse_line-UsageIsWords :
    (d : Decoder) (p : Parser) (line : List ℕ) (turn : Turn)
    → DecodesWords d
    → (parse_line d p line).1 ≡ some turn
    → UsageIsWords turn.usage
parse_line-UsageIsWords d p line turn words e =
    let n = 64 + length p.pending_escalated in
    let (bounded, carries) = parse_line-Fine n (omega arith) d p line words (omega arith) in
    let carried : Carries (parse_line d p line).0 (some turn) =
      subst (Carries (parse_line d p line).0) e carries in
    carried.1
