-- ===== src/Codex/Orphans.antt =====
-- codex/parser.go: lines of a rollout before its metadata.
use peek_mcp.Prelude.{
  ◌≡◌, refl, sym, ap, ◌∙◌, ℕ, String, true, false, List, none, some, arith, str_eq, is_empty,
  Bool-cases, Option-cases, inl, inr,
}
use peek_mcp.Session.Turn.{Turn}
use peek_mcp.Codex.Entry.{
  Entry, validate_entry, entry_type_session_meta, entry_type_turn_context, entry_type_response_item,
  entry_type_event_message,
}
use peek_mcp.Codex.Decoder.{Decoder}
use peek_mcp.Codex.State.{Parser}
use peek_mcp.Codex.Parser.{
  checked, handle_response_item, handle_event_message, handle_entry, parse_line,
}

handle_response_item-orphan :
    (d : Decoder) (p : Parser) (payload : String) (ts : ℕ)
    → is_empty p.session_id ≡ true
    → handle_response_item d p payload ts ≡ (p, none)
unfolding handle_response_item
handle_response_item-orphan d p payload ts h = rw (h, handle_response_item) refl

handle_event_message-orphan :
    (d : Decoder) (p : Parser) (payload : String) (ts : ℕ)
    → is_empty p.session_id ≡ true
    → handle_event_message d p payload ts ≡ none
unfolding handle_event_message
handle_event_message-orphan d p payload ts h = rw (h, handle_event_message) refl

-- Only metadata give a turn.
handle_entry-orphan :
    (d : Decoder) (p : Parser) (entry : Entry)
    → is_empty p.session_id ≡ true
    → str_eq entry.type entry_type_session_meta ≡ false
    → (handle_entry d p entry).1 ≡ none
unfolding handle_entry
handle_entry-orphan d p entry h other =
    elim (Bool-cases (str_eq entry.type entry_type_turn_context)) [
      | inl f ↦ rw (other, handle_entry, f) refl
      | inr f ↦ elim (Bool-cases (str_eq entry.type entry_type_response_item)) [
        | inl g ↦
            rw (other, handle_entry, f, g)
              (ap (λ r. r.1) (handle_response_item-orphan d p entry.payload entry.timestamp h))
        | inr g ↦ elim (Bool-cases (str_eq entry.type entry_type_event_message)) [
          | inl i ↦
              rw (other, handle_entry, f, g, i)
                (handle_event_message-orphan d p entry.payload entry.timestamp h)
          | inr i ↦ rw (other, handle_entry, f, g, i) refl
        ]
      ]
    ]

-- As long as a parser has no session, a line gives a turn only if it holds an entry of metadata that
-- passes its check; every other line, one that does not decode included, gives none.
pub parse_line-orphan :
    (d : Decoder) (p : Parser) (line : List ℕ) (turn : Turn)
    → is_empty p.session_id ≡ true
    → (parse_line d p line).1 ≡ some turn
    → (entry : Entry) × (checked validate_entry (d.entry line) ≡ some entry)
      × (str_eq entry.type entry_type_session_meta ≡ true)
unfolding parse_line
parse_line-orphan d p line turn h e = elim (Option-cases (checked validate_entry (d.entry line))) [
  | inl f ↦
      let ran : parse_line d p line ≡ (p, none) = rw (f, parse_line) refl in
      absurd (ground (arith, sym (ap (λ r. r.1) ran) ∙ e))
  | inr (entry, f) ↦
      let ran : parse_line d p line ≡ handle_entry d p entry = rw (f, parse_line) refl in
      elim (Bool-cases (str_eq entry.type entry_type_session_meta)) [
        | inl meta ↦ (entry, f, meta)
        | inr other ↦
            let nothing =
              sym (handle_entry-orphan d p entry h other) ∙ sym (ap (λ r. r.1) ran) ∙ e in
            absurd (ground (arith, nothing))
      ]
]
