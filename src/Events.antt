-- ===== src/Events.antt =====
-- events/broker.go: the broker that hands events to subscribers. A channel is known by its place
-- in `channels` and holds the events that wait in its buffer. The lock is not modelled: each call
-- is one step.
pub mod Delivery
pub mod Subscribed
use peek_mcp.Prelude.{ℕ, String, List, [], ◌∷◌, ◌++◌, length, modify, ltb, ◌==◌, if◌then◌else◌}
use peek_mcp.Prelude.Words.{add64}

-- The constants of `Type`.
pub data EventType : Type 0 where
  session_created turn_added event_added usage_updated plan_updated diff_updated : EventType
  uncommitted_diff_updated : EventType

pub record Event : Type 0 where
  pub type : EventType
  pub session_id : String
  pub agent : String
  pub ts : ℕ

abbrev pub subscriber_buffer : ℕ
subscriber_buffer = 16

pub record Broker : Type 0 where
  pub channels : List (List Event)
  pub subs : List (ℕ × ℕ)
  pub next : ℕ

-- `NewBroker()`
abbrev pub new_broker : Broker
new_broker = record { channels = []; subs = []; next = 0 }

-- `delete(b.subs, id)`
unfoldable pub delete : ℕ → List (ℕ × ℕ) → List (ℕ × ℕ)
delete id [] = []
delete id ((j, ch) ∷ subs) = let rest = delete id subs in if j == id then rest else (j, ch) ∷ rest

-- `b.subs[id] = ch`
unfoldable pub assign : ℕ → ℕ → List (ℕ × ℕ) → List (ℕ × ℕ)
assign id ch [] = (id, ch) ∷ []
assign id ch ((j, c) ∷ subs) = if j == id then (id, ch) ∷ subs else (j, c) ∷ assign id ch subs

-- `b.Subscribe()`: the broker, the channel, and the id that the returned function unsubscribes.
unfoldable pub subscribe : Broker → Broker × ℕ × ℕ
unfolding assign add64
subscribe b =
    let ch = length b.channels in
    (
      record {
        channels = b.channels ++ [] ∷ [];
        subs = assign b.next ch b.subs;
        next = add64 b.next 1;
      },
      ch,
      b.next,
    )

-- The function that `Subscribe` returns.
unfoldable pub unsubscribe : Broker → ℕ → Broker
unfolding delete
unsubscribe b id = record b { subs = delete id b.subs }

-- `select { case ch <- ev: default: }` on a channel with a buffer: a full one drops the event.
unfoldable pub offer : Event → List Event → List Event
offer ev queue = if ltb (length queue) subscriber_buffer then queue ++ ev ∷ [] else queue

-- The loop of `Publish`.
unfoldable pub offer_all : Event → List (ℕ × ℕ) → List (List Event) → List (List Event)
unfolding offer
offer_all ev [] channels = channels
offer_all ev ((id, ch) ∷ subs) channels = offer_all ev subs (modify (offer ev) channels ch)

-- `b.Publish(ev)`
unfoldable pub publish : Broker → Event → Broker
unfolding offer_all
publish b ev = record b { channels = offer_all ev b.subs b.channels }
