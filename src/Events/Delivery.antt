-- ===== src/Events/Delivery.antt =====
-- events/broker.go: what the subscribers of a broker get.
use mathlib.Core.Option
use peek_mcp.Prelude.{
  ℕ, suc, ◌+◌, ◌≤◌, ◌<◌, ◌≡◌, refl, ◌∙◌, Bool, true, false, List, [], ◌∷◌, ◌++◌, length, get_elem?,
  modify, length-modify, length-snoc, zero, ◌≢◌, ltb, get_elem?-modify, arith, ◌==◌, if◌then◌else◌,
  Bool-cases, inl, inr,
}
use peek_mcp.Events.{
  Broker, Event, subscriber_buffer, new_broker, delete, assign, subscribe, unsubscribe, offer,
  offer_all, publish,
}

-- A subscription has the channel.
unfoldable pub is_served : ℕ → List (ℕ × ℕ) → Bool
is_served i [] = false
is_served i ((id, ch) ∷ subs) = let rest = is_served i subs in if ch == i then true else rest

-- Every subscription has a channel of its own.
abbrev pub IsDistinct : List (ℕ × ℕ) → Type 0
IsDistinct [] = Unit
IsDistinct ((id, ch) ∷ subs) = (is_served ch subs ≡ false) × IsDistinct subs

abbrev pub AllMade : ℕ → List (ℕ × ℕ) → Type 0
AllMade n [] = Unit
AllMade n ((id, ch) ∷ subs) = (ch < n) × AllMade n subs

abbrev pub AllShort : List (List Event) → Type 0
AllShort [] = Unit
AllShort (queue ∷ queues) = (length queue ≤ subscriber_buffer) × AllShort queues

-- The subscriptions have channels that were made, each its own, and no channel holds more than its
-- buffer.
pub record IsValid (b : Broker) : Type 0 where
  pub made : AllMade (length b.channels) b.subs
  pub distinct : IsDistinct b.subs
  pub short : AllShort b.channels

not_served : (n : ℕ) (subs : List (ℕ × ℕ)) → AllMade n subs → is_served n subs ≡ false
unfolding is_served
not_served n [] h = refl
not_served n ((id, ch) ∷ subs) h = ground (arith, not_served n subs h.1, h.0)

pub offer_all-length :
    (ev : Event) (subs : List (ℕ × ℕ)) (channels : List (List Event))
    → length (offer_all ev subs channels) ≡ length channels
unfolding offer_all
offer_all-length ev [] channels = refl
offer_all-length ev ((id, ch) ∷ subs) channels =
    offer_all-length ev subs (modify (offer ev) channels ch) ∙ length-modify (offer ev) channels ch

get_elem?-offer_all :
    (ev : Event) (subs : List (ℕ × ℕ)) (channels : List (List Event)) (i : ℕ)
    → IsDistinct subs
    → get_elem? (offer_all ev subs channels) i ≡ (
        if is_served i subs
        then Option.map (offer ev) (get_elem? channels i)
        else get_elem? channels i)
unfolding offer_all is_served
get_elem?-offer_all ev [] channels i h = refl
get_elem?-offer_all ev ((id, ch) ∷ subs) channels i h = ground (
  arith,
  get_elem?-offer_all ev subs (modify (offer ev) channels ch) i h.1,
  get_elem?-modify (offer ev) channels ch i,
  h.0,
)

-- On a valid broker, an event reaches each channel that a subscription has, once: it is at the end
-- of the queue where there is room and dropped where there is none. Every other channel stays as it
-- is.
pub publish-delivers :
    (b : Broker) (ev : Event) (i : ℕ)
    → IsValid b
    → get_elem? (publish b ev).channels i ≡ (
        if is_served i b.subs
        then Option.map
            (λ queue. if ltb (length queue) subscriber_buffer then queue ++ ev ∷ [] else queue)
            (get_elem? b.channels i)
        else get_elem? b.channels i)
unfolding publish offer
publish-delivers b ev i v = get_elem?-offer_all ev b.subs b.channels i v.distinct

AllShort-modify :
    (ev : Event) (channels : List (List Event)) (i : ℕ)
    → AllShort channels
    → AllShort (modify (offer ev) channels i)
unfolding offer
AllShort-modify ev [] i h = tt
AllShort-modify ev (queue ∷ channels) zero h = (ground (arith, length-snoc queue ev, h.0), h.1)
AllShort-modify ev (queue ∷ channels) (suc i) h = (h.0, AllShort-modify ev channels i h.1)

AllShort-offer_all :
    (ev : Event) (subs : List (ℕ × ℕ)) (channels : List (List Event))
    → AllShort channels
    → AllShort (offer_all ev subs channels)
unfolding offer_all
AllShort-offer_all ev [] channels h = h
AllShort-offer_all ev ((id, ch) ∷ subs) channels h =
    AllShort-offer_all ev subs (modify (offer ev) channels ch) (AllShort-modify ev channels ch h)

AllShort-snoc : (channels : List (List Event)) → AllShort channels → AllShort (channels ++ [] ∷ [])
AllShort-snoc [] h = (omega arith, tt)
AllShort-snoc (queue ∷ channels) h = (h.0, AllShort-snoc channels h.1)

AllMade-weaken : (n m : ℕ) (subs : List (ℕ × ℕ)) → n ≤ m → AllMade n subs → AllMade m subs
AllMade-weaken n m [] le h = tt
AllMade-weaken n m ((id, ch) ∷ subs) le h = (omega (arith, h.0), AllMade-weaken n m subs le h.1)

AllMade-assign :
    (n id : ℕ) (subs : List (ℕ × ℕ)) → AllMade n subs → AllMade (suc n) (assign id n subs)
unfolding assign
AllMade-assign n id [] h = (omega arith, tt)
AllMade-assign n id ((j, ch) ∷ subs) h = elim (Bool-cases (j == id)) [
  | inl e ↦ rw e (omega arith, AllMade-weaken n (suc n) subs (omega arith) h.1)
  | inr e ↦ rw e (omega (arith, h.0), AllMade-assign n id subs h.1)
]

is_served-assign :
    (i n id : ℕ) (subs : List (ℕ × ℕ))
    → i ≢ n
    → is_served i subs ≡ false
    → is_served i (assign id n subs) ≡ false
unfolding is_served assign
is_served-assign i n id [] d h = ground arith
is_served-assign i n id ((j, ch) ∷ subs) d h = ground (arith, is_served-assign i n id subs d)

IsDistinct-assign :
    (n id : ℕ) (subs : List (ℕ × ℕ))
    → AllMade n subs
    → IsDistinct subs
    → IsDistinct (assign id n subs)
unfolding assign is_served
IsDistinct-assign n id [] m h = (refl, tt)
IsDistinct-assign n id ((j, ch) ∷ subs) m h = elim (Bool-cases (j == id)) [
  | inl e ↦ rw e (not_served n subs m.1, h.1)
  | inr e ↦
      rw e (
        is_served-assign ch n id subs (omega (arith, m.0)) h.0,
        IsDistinct-assign n id subs m.1 h.1,
      )
]

AllMade-delete : (n id : ℕ) (subs : List (ℕ × ℕ)) → AllMade n subs → AllMade n (delete id subs)
unfolding delete
AllMade-delete n id [] h = tt
AllMade-delete n id ((j, ch) ∷ subs) h = elim (Bool-cases (j == id)) [
  | inl e ↦ rw e (AllMade-delete n id subs h.1)
  | inr e ↦ rw e (h.0, AllMade-delete n id subs h.1)
]

is_served-delete :
    (i id : ℕ) (subs : List (ℕ × ℕ))
    → is_served i subs ≡ false
    → is_served i (delete id subs) ≡ false
unfolding is_served delete
is_served-delete i id [] h = refl
is_served-delete i id ((j, ch) ∷ subs) h = ground (arith, is_served-delete i id subs)

IsDistinct-delete : (id : ℕ) (subs : List (ℕ × ℕ)) → IsDistinct subs → IsDistinct (delete id subs)
unfolding delete
IsDistinct-delete id [] h = tt
IsDistinct-delete id ((j, ch) ∷ subs) h = elim (Bool-cases (j == id)) [
  | inl e ↦ rw e (IsDistinct-delete id subs h.1)
  | inr e ↦ rw e (is_served-delete ch id subs h.0, IsDistinct-delete id subs h.1)
]

-- What is done with a broker, in any order.
pub data Action : Type 0 where
  subscribing : Action
  unsubscribing : ℕ → Action
  publishing : Event → Action

unfoldable pub act : Broker → Action → Broker
act b subscribing = (subscribe b).0
act b (unsubscribing id) = unsubscribe b id
act b (publishing ev) = publish b ev

unfoldable pub run : Broker → List Action → Broker
unfolding act
run b [] = b
run b (action ∷ actions) = run (act b action) actions

pub subscribe-IsValid : (b : Broker) → IsValid b → IsValid (subscribe b).0
unfolding subscribe
subscribe-IsValid b v = record {
  made = rw (length-snoc b.channels []) (
      AllMade-weaken (suc (length b.channels)) (length b.channels + 1)
        (assign b.next (length b.channels) b.subs) (omega arith)
        (AllMade-assign (length b.channels) b.next b.subs v.made));
  distinct = IsDistinct-assign (length b.channels) b.next b.subs v.made v.distinct;
  short = AllShort-snoc b.channels v.short;
}

pub publish-IsValid : (b : Broker) (ev : Event) → IsValid b → IsValid (publish b ev)
unfolding publish
publish-IsValid b ev v = record {
  made = rw (offer_all-length ev b.subs b.channels) v.made;
  distinct = v.distinct;
  short = AllShort-offer_all ev b.subs b.channels v.short;
}

pub unsubscribe-IsValid : (b : Broker) (id : ℕ) → IsValid b → IsValid (unsubscribe b id)
unfolding unsubscribe
unsubscribe-IsValid b id v = record {
  made = AllMade-delete (length b.channels) id b.subs v.made;
  distinct = IsDistinct-delete id b.subs v.distinct;
  short = v.short;
}

run-from : (b : Broker) (actions : List Action) → IsValid b → IsValid (run b actions)
unfolding run act
run-from b [] v = v
run-from b (subscribing ∷ actions) v = run-from (subscribe b).0 actions (subscribe-IsValid b v)
run-from b (unsubscribing id ∷ actions) v =
    run-from (unsubscribe b id) actions (unsubscribe-IsValid b id v)
run-from b (publishing ev ∷ actions) v = run-from (publish b ev) actions (publish-IsValid b ev v)

pub run-IsValid : (actions : List Action) → IsValid (run new_broker actions)
run-IsValid actions = run-from new_broker actions (record { made = tt; distinct = tt; short = tt })
