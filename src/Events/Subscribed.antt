-- ===== src/Events/Subscribed.antt =====
-- events/broker.go: who is subscribed after any sequence of calls of a broker.
use mathlib.Core.Option
use peek_mcp.Prelude.{
  ℕ, suc, ◌+◌, ◌<◌, ◌≡◌, refl, sym, ap, ◌∙◌, Bool, true, false, List, [], ◌∷◌, ◌++◌, length,
  get_elem?, length-snoc, ltb, arith, ◌==◌, if◌then◌else◌, Bool-cases, inl, inr,
}
use peek_mcp.Prelude.Words.{add64}
use peek_mcp.Events.{
  Broker, Event, subscriber_buffer, new_broker, delete, assign, subscribe, unsubscribe, publish,
}
use peek_mcp.Events.Delivery.{
  Action, subscribing, unsubscribing, publishing, act, run, is_served, AllMade, IsValid,
  offer_all-length, subscribe-IsValid, unsubscribe-IsValid, publish-IsValid, publish-delivers,
  run-IsValid,
}

-- The reference: subscriptions are numbered from 0 in the order of the calls, and the i-th lasts
-- from its call to the call that unsubscribes i. `n` is the next number, `live` the state of the
-- i-th so far.
unfoldable pub lasts : ℕ → ℕ → Bool → List Action → Bool
lasts i n live [] = live
lasts i n live (subscribing ∷ actions) = lasts i (n + 1) (if n == i then true else live) actions
lasts i n live (unsubscribing j ∷ actions) = lasts i n (if j == i then false else live) actions
lasts i n live (publishing ev ∷ actions) = lasts i n live actions

abbrev pub count_subscribing : List Action → ℕ
count_subscribing [] = 0
count_subscribing (subscribing ∷ actions) = suc (count_subscribing actions)
count_subscribing (unsubscribing j ∷ actions) = count_subscribing actions
count_subscribing (publishing ev ∷ actions) = count_subscribing actions

-- Every subscription has the channel of its own number.
abbrev AllOwn : List (ℕ × ℕ) → Type 0
AllOwn [] = Unit
AllOwn ((id, ch) ∷ subs) = (id ≡ ch) × AllOwn subs

record IsNumbered (b : Broker) : Type 0 where
  next : b.next ≡ length b.channels
  own : AllOwn b.subs
  valid : IsValid b

is_served-assign-new :
    (i n : ℕ) (subs : List (ℕ × ℕ))
    → AllMade n subs
    → AllOwn subs
    → is_served i (assign n n subs) ≡ (if n == i then true else is_served i subs)
unfolding is_served assign
is_served-assign-new i n [] m o = ground arith
is_served-assign-new i n ((j, ch) ∷ subs) m o =
    ground (arith, is_served-assign-new i n subs m.1 o.1, m.0, o.0)

AllOwn-assign : (n : ℕ) (subs : List (ℕ × ℕ)) → AllOwn subs → AllOwn (assign n n subs)
unfolding assign
AllOwn-assign n [] o = (refl, tt)
AllOwn-assign n ((j, ch) ∷ subs) o = elim (Bool-cases (j == n)) [
  | inl e ↦ rw e (refl, o.1)
  | inr e ↦ rw e (o.0, AllOwn-assign n subs o.1)
]

is_served-delete-own :
    (i j : ℕ) (subs : List (ℕ × ℕ))
    → AllOwn subs
    → is_served i (delete j subs) ≡ (if j == i then false else is_served i subs)
unfolding is_served delete
is_served-delete-own i j [] o = ground arith
is_served-delete-own i j ((id, ch) ∷ subs) o =
    ground (arith, is_served-delete-own i j subs o.1, o.0)

AllOwn-delete : (j : ℕ) (subs : List (ℕ × ℕ)) → AllOwn subs → AllOwn (delete j subs)
unfolding delete
AllOwn-delete j [] o = tt
AllOwn-delete j ((id, ch) ∷ subs) o = elim (Bool-cases (id == j)) [
  | inl e ↦ rw e (AllOwn-delete j subs o.1)
  | inr e ↦ rw e (o.0, AllOwn-delete j subs o.1)
]

subscribe-IsNumbered :
    (b : Broker)
    → suc (length b.channels) < 18446744073709551616
    → IsNumbered b
    → IsNumbered (subscribe b).0
unfolding subscribe add64
subscribe-IsNumbered b room v = record {
  next = omega (arith, v.next, length-snoc b.channels []);
  own = rw v.next (AllOwn-assign (length b.channels) b.subs v.own);
  valid = subscribe-IsValid b v.valid;
}

subscribe-serves :
    (b : Broker) (i : ℕ)
    → IsNumbered b
    → is_served i (subscribe b).0.subs
      ≡ (if length b.channels == i then true else is_served i b.subs)
unfolding subscribe
subscribe-serves b i v =
    rw v.next (is_served-assign-new i (length b.channels) b.subs v.valid.made v.own)

subscribe-length : (b : Broker) → length (subscribe b).0.channels ≡ length b.channels + 1
unfolding subscribe
subscribe-length b = length-snoc b.channels []

unsubscribe-IsNumbered : (b : Broker) (j : ℕ) → IsNumbered b → IsNumbered (unsubscribe b j)
unfolding unsubscribe
unsubscribe-IsNumbered b j v = record {
  next = v.next;
  own = AllOwn-delete j b.subs v.own;
  valid = unsubscribe-IsValid b j v.valid;
}

unsubscribe-serves :
    (b : Broker) (i j : ℕ)
    → IsNumbered b
    → is_served i (unsubscribe b j).subs ≡ (if j == i then false else is_served i b.subs)
unfolding unsubscribe
unsubscribe-serves b i j v = is_served-delete-own i j b.subs v.own

unsubscribe-length : (b : Broker) (j : ℕ) → length (unsubscribe b j).channels ≡ length b.channels
unfolding unsubscribe
unsubscribe-length b j = refl

publish-length : (b : Broker) (ev : Event) → length (publish b ev).channels ≡ length b.channels
unfolding publish
publish-length b ev = offer_all-length ev b.subs b.channels

publish-subs : (b : Broker) (ev : Event) → (publish b ev).subs ≡ b.subs
unfolding publish
publish-subs b ev = refl

publish-IsNumbered : (b : Broker) (ev : Event) → IsNumbered b → IsNumbered (publish b ev)
unfolding publish
publish-IsNumbered b ev v = record {
  next = v.next ∙ sym (publish-length b ev);
  own = v.own;
  valid = publish-IsValid b ev v.valid;
}

run-lasts :
    (b : Broker) (actions : List Action) (i : ℕ)
    → IsNumbered b
    → length b.channels + count_subscribing actions < 18446744073709551616
    → is_served i (run b actions).subs ≡ lasts i (length b.channels) (is_served i b.subs) actions
unfolding run act lasts
run-lasts b [] i v room = refl
run-lasts b (subscribing ∷ actions) i v room =
    run-lasts (subscribe b).0 actions i (subscribe-IsNumbered b (omega arith) v)
      (omega (arith, subscribe-length b))
    ∙ ap (λ n. lasts i n (is_served i (subscribe b).0.subs) actions) (subscribe-length b)
    ∙ ap (λ live. lasts i (length b.channels + 1) live actions) (subscribe-serves b i v)
run-lasts b (unsubscribing j ∷ actions) i v room =
    run-lasts (unsubscribe b j) actions i (unsubscribe-IsNumbered b j v)
      (omega (arith, unsubscribe-length b j))
    ∙ ap (λ n. lasts i n (is_served i (unsubscribe b j).subs) actions) (unsubscribe-length b j)
    ∙ ap (λ live. lasts i (length b.channels) live actions) (unsubscribe-serves b i j v)
run-lasts b (publishing ev ∷ actions) i v room =
    run-lasts (publish b ev) actions i (publish-IsNumbered b ev v)
      (omega (arith, publish-length b ev))
    ∙ ap (λ n. lasts i n (is_served i (publish b ev).subs) actions) (publish-length b ev)
    ∙ ap (λ subs. lasts i (length b.channels) (is_served i subs) actions) (publish-subs b ev)

new_broker-IsNumbered : IsNumbered new_broker
unfolding run
new_broker-IsNumbered = record { next = refl; own = tt; valid = run-IsValid [] }

-- After any calls on a new broker, fewer than 2 ^ 64 of them subscriptions, an event is appended
-- once to the queue of the i-th channel, or dropped where it is full, if the i-th subscription was
-- made and was not unsubscribed since; every other channel stays as it is.
pub run-delivers :
    (actions : List Action) (ev : Event) (i : ℕ)
    → count_subscribing actions < 18446744073709551616
    → let b = run new_broker actions in
      get_elem? (publish b ev).channels i ≡ (
        if lasts i 0 false actions
        then Option.map
            (λ queue. if ltb (length queue) subscriber_buffer then queue ++ ev ∷ [] else queue)
            (get_elem? b.channels i)
        else get_elem? b.channels i)
unfolding is_served
run-delivers actions ev i room =
    let b = run new_broker actions in
    let add =
      Option.map
        (λ (queue : List Event).
          if ltb (length queue) subscriber_buffer then queue ++ ev ∷ [] else queue)
        (get_elem? b.channels i) in
    publish-delivers b ev i (run-IsValid actions)
    ∙ ap (λ served. if served then add else get_elem? b.channels i)
        (run-lasts new_broker actions i new_broker-IsNumbered (omega (arith, room)))
