-- ===== src/Session/EventBuffer/Budget.antt =====
-- session/event_buffer.go: what the event buffer keeps of a history of pushes.
use peek_mcp.Prelude.{
  ℕ, ◌+◌, ◌-◌, ◌≤◌, ◌<◌, ◌≡◌, refl, ap, Bool, true, false, not, List, [], ◌∷◌, ◌++◌, none, inl, inr,
  length, take, keep, keep-snoc_hit, keep-snoc_miss, bounded_prefix-snoc, take-nil, ◌∙◌, sym,
  length-snoc, arith, length-take-le, Bool-cases, ltb, if◌then◌else◌,
}
use mathlib.Core.Path.{ap₂}
use mathlib.Core.List.{append-nil, append_assoc}
use peek_mcp.Prelude.Words.{IsWord}
use peek_mcp.Session.Event.{Event, is_denied}
use peek_mcp.Session.EventBuffer.{EventBuffer, new, validate, push}

abbrev pub denied : Event → Bool
denied e = is_denied e.kind

abbrev pub not_denied : Event → Bool
not_denied e = not (is_denied e.kind)

pub push_all : EventBuffer → List Event → EventBuffer
push_all b [] = b
push_all b (e ∷ history) = push_all (push b e) history

-- The buffer `b` holds what the budgets leave of the history: its first denials up to their budget,
-- its first other events up to the rest of the capacity, and the count of the denials.
pub record Holds (b : EventBuffer) (history : List Event) : Type 0 where
  pub denials_kept : keep denied b.items ≡ take b.denial_budget (keep denied history)
  pub others_kept :
      keep not_denied b.items ≡ take (b.capacity - b.denial_budget) (keep not_denied history)
  pub counted : b.denials ≡ length (keep denied b.items)
  pub sized : length b.items ≡ length (keep denied b.items) + length (keep not_denied b.items)

-- The bounds that `Validate` checks.
pub record IsValid (b : EventBuffer) : Type 0 where
  pub positive : 0 < b.capacity
  pub signed : b.capacity < 9223372036854775808
  pub within : b.denial_budget ≤ b.capacity

-- A buffer that passes `Validate` has the bounds.
pub validate-IsValid :
    (b : EventBuffer) → IsWord b.capacity → IsWord b.denial_budget → validate b ≡ none → IsValid b
unfolding validate
validate-IsValid b w v h = record {
  positive = ground arith;
  signed = ground arith;
  within = ground arith;
}

-- `push` with the machine arithmetic gone.
abbrev push_plain : EventBuffer → Event → EventBuffer
push_plain b e =
    if is_denied e.kind
    then (if ltb b.denials b.denial_budget
        then record b { denials = b.denials + 1; items = b.items ++ e ∷ [] }
        else b)
    else if ltb (length b.items - b.denials) (b.capacity - b.denial_budget)
    then record b { items = b.items ++ e ∷ [] }
    else b

push-plain :
    (b : EventBuffer) (e : Event)
    → IsValid b
    → b.denials ≤ length b.items
    → length b.items ≤ b.capacity
    → push b e ≡ push_plain b e
unfolding push
push-plain b e v h k = ground arith

-- Never more events than the capacity.
pub Holds-length-le :
    (b : EventBuffer) (history : List Event)
    → IsValid b
    → Holds b history
    → length b.items ≤ b.capacity
Holds-length-le b history v h = omega (
  arith,
  h.sized,
  v.within,
  ap (length {A = Event}) h.denials_kept,
  ap (length {A = Event}) h.others_kept,
  length-take-le b.denial_budget (keep denied history),
  length-take-le (b.capacity - b.denial_budget) (keep not_denied history),
)

module _ (b : EventBuffer) (e : Event) (history : List Event) (h : Holds b history) where
  denials_step : is_denied e.kind ≡ true → Holds (push_plain b e) (history ++ e ∷ [])
  denials_step d = rw d (record {
    denials_kept = ground (
      arith,
      h.counted,
      bounded_prefix-snoc b.denial_budget (keep denied b.items) (keep denied history) e
          h.denials_kept,
      keep-snoc_hit denied b.items e d,
      keep-snoc_hit denied history e d,
    );
    others_kept = ground (
      arith,
      h.others_kept,
      keep-snoc_miss not_denied b.items e (ground arith),
      keep-snoc_miss not_denied history e (ground arith),
    );
    counted =
        ground
          (arith, h.counted, length-snoc (keep denied b.items) e, keep-snoc_hit denied b.items e d);
    sized = ground (
      arith,
      h.sized,
      length-snoc b.items e,
      length-snoc (keep denied b.items) e,
      keep-snoc_hit denied b.items e d,
      keep-snoc_miss not_denied b.items e (ground arith),
    );
  })

  others_step : is_denied e.kind ≡ false → Holds (push_plain b e) (history ++ e ∷ [])
  others_step d = rw d (record {
    denials_kept = ground (
      arith,
      h.denials_kept,
      keep-snoc_miss denied b.items e d,
      keep-snoc_miss denied history e d,
    );
    others_kept = ground (
      arith,
      h.sized,
      h.counted,
      bounded_prefix-snoc (b.capacity - b.denial_budget) (keep not_denied b.items)
          (keep not_denied history) e h.others_kept,
      keep-snoc_hit not_denied b.items e (ground arith),
      keep-snoc_hit not_denied history e (ground arith),
    );
    counted = ground (arith, h.counted, keep-snoc_miss denied b.items e d);
    sized = ground (
      arith,
      h.sized,
      length-snoc b.items e,
      length-snoc (keep not_denied b.items) e,
      keep-snoc_miss denied b.items e d,
      keep-snoc_hit not_denied b.items e (ground arith),
    );
  })

  pub push-Holds : IsValid b → Holds (push b e) (history ++ e ∷ [])
  push-Holds v =
      rw (push-plain b e v (omega (arith, h.counted, h.sized)) (Holds-length-le b history v h))
        (elim (Bool-cases (is_denied e.kind)) [ inl d ↦ denials_step d | inr d ↦ others_step d ])

-- A push leaves the two budgets as they are.
pub push-budgets :
    (b : EventBuffer) (e : Event)
    → ((push b e).capacity ≡ b.capacity) × ((push b e).denial_budget ≡ b.denial_budget)
unfolding push
push-budgets b e = ground arith

push-IsValid : (b : EventBuffer) (e : Event) → IsValid b → IsValid (push b e)
push-IsValid b e v =
    let (c, d) = push-budgets b e in
    record { positive = rw c v.positive; signed = rw c v.signed; within = rw (c, d) v.within }

push_all-Holds :
    (b : EventBuffer) (past history : List Event)
    → IsValid b
    → Holds b past
    → Holds (push_all b history) (past ++ history)
      × ((push_all b history).capacity ≡ b.capacity)
      × ((push_all b history).denial_budget ≡ b.denial_budget)
unfolding push_all
push_all-Holds b past [] v h = (rw append-nil h, refl, refl)
push_all-Holds b past (e ∷ history) v h =
    let (held, c, d) =
      push_all-Holds (push b e) (past ++ e ∷ []) history (push-IsValid b e v)
        (push-Holds b e past h v) in
    let (c', d') = push-budgets b e in (rw append_assoc at held, c ∙ c', d ∙ d')

-- For every valid pair of budgets and every history of pushes into a new buffer: the denials that
-- are kept are the first ones of the history, up to their budget; the other events that are kept
-- are the first ones, up to the rest of the capacity; and no more than the capacity is kept. So no
-- kind of event evicts the other.
pub push_all-budgets :
    (capacity denial_budget : ℕ) (history : List Event)
    → IsValid (new capacity denial_budget)
    → let b = push_all (new capacity denial_budget) history in
      (keep denied b.items ≡ take denial_budget (keep denied history))
      × (keep not_denied b.items ≡ take (capacity - denial_budget) (keep not_denied history))
      × (length b.items ≤ capacity)
unfolding new
push_all-budgets capacity denial_budget history v =
    let (held, c, d) = push_all-Holds (new capacity denial_budget) [] history v (record {
      denials_kept = sym (take-nil denial_budget);
      others_kept = sym (take-nil (capacity - denial_budget));
      counted = refl;
      sized = omega arith;
    }) in
    let denials = held.denials_kept ∙ ap (λ n. take n (keep denied history)) d in
    let others = held.others_kept ∙ ap₂ (λ n k. take (n - k) (keep not_denied history)) c d in
    (
      denials,
      others,
      omega (
        arith,
        held.sized,
        v.within,
        ap (length {A = Event}) denials,
        ap (length {A = Event}) others,
        length-take-le denial_budget (keep denied history),
        length-take-le (capacity - denial_budget) (keep not_denied history),
      ),
    )
