-- ===== src/Tests/Store.antt =====
-- The broker and the store on concrete data.
use mathlib.Core.Option
use Prim.Native.String.{String}
use peek_mcp.Prelude.{
  ◌≡◌, refl, true, false, ◌&&◌, List, [], ◌∷◌, ◌++◌, length, get_elem?, arith, ltb, is_empty,
  if◌then◌else◌,
}
use peek_mcp.Events
use peek_mcp.Events.{Broker, turn_added, subscriber_buffer, new_broker}
use peek_mcp.Events.Subscribed.{lasts, run-delivers}
use peek_mcp.Events.Delivery.{
  Action, subscribing, unsubscribing, publishing, is_served, run, run-IsValid, publish-delivers,
}
use peek_mcp.Session.State.{Session}
use peek_mcp.Store.State.{Store, new_store}
use peek_mcp.Store.AddTurn.{new_session}
use peek_mcp.Store.Find.{sort_by_last_active_desc, last_session}
use peek_mcp.Store.Find.Order.{
  IsDescending, IsNewest, count, is_wanted, values, sort_by_last_active_desc-sorts,
  last_session-IsNewest,
}
use peek_mcp.Store.Plan.{set_plan_content, is_persisted}
use peek_mcp.Store.Plan.Bound.{IsBounded, set_plan_content-IsBounded}
use peek_mcp.Store.Plan.Content.{set_plan_content-content}
use peek_mcp.Tests.Data.{empty_ring, env}

abbrev notice : Events.Event
notice = record { type = turn_added; session_id = "s1"; agent = "claude"; ts = 5 }

abbrev actions : List Action
actions = subscribing ∷ subscribing ∷ publishing notice ∷ unsubscribing 0 ∷ []

run-delivers_example :
    let b = run new_broker actions in
    get_elem? (Events.publish b notice).channels 1 ≡ (
      if lasts 1 0 false actions
      then Option.map
          (λ queue. if ltb (length queue) subscriber_buffer then queue ++ notice ∷ [] else queue)
          (get_elem? b.channels 1)
      else get_elem? b.channels 1)
run-delivers_example = run-delivers actions notice 1 (omega arith)

-- The second subscription lasts, the first does not.
actions-lasts : (lasts 1 0 false actions ≡ true) × (lasts 0 0 false actions ≡ false)
unfolding lasts
actions-lasts = (refl, refl)

publish-delivers_example :
    let b = run new_broker actions in
    get_elem? (Events.publish b notice).channels 1 ≡ (
      if is_served 1 b.subs
      then Option.map
          (λ queue. if ltb (length queue) subscriber_buffer then queue ++ notice ∷ [] else queue)
          (get_elem? b.channels 1)
      else get_elem? b.channels 1)
publish-delivers_example = publish-delivers (run new_broker actions) notice 1 (run-IsValid actions)

abbrev older : Session
older = record (new_session "s1" "claude" empty_ring) { last_active = 10 }

abbrev newer : Session
newer = record (new_session "s2" "codex" empty_ring) { last_active = 20 }

abbrev store : Store String
store = record (new_store "plan A" true 3 2 new_broker ("claude" ∷ "codex" ∷ [])) {
  sessions = ("s1", older) ∷ ("s2", newer) ∷ [];
}

sort_by_last_active_desc-sorts_example :
    IsDescending (sort_by_last_active_desc store ("codex" ∷ []))
    × (count (λ x. is_empty x.title) (sort_by_last_active_desc store ("codex" ∷ []))
        ≡ count (λ x. is_wanted ("codex" ∷ []) x && is_empty x.title) (values store.sessions))
sort_by_last_active_desc-sorts_example =
    sort_by_last_active_desc-sorts store ("codex" ∷ []) (λ x. is_empty x.title)

last_session-IsNewest_example :
    IsNewest (is_wanted []) (values store.sessions) (last_session store [])
last_session-IsNewest_example = last_session-IsNewest store []

newer-IsBounded : IsBounded newer
unfolding new_session
newer-IsBounded = record { few = omega arith; started = λ e. refl }

newer-apart : is_persisted store newer ≡ false
unfolding new_session new_store
newer-apart = refl

set_plan_content-IsBounded_example : IsBounded (set_plan_content env 7 store "plan B" newer 5).1
set_plan_content-IsBounded_example =
    set_plan_content-IsBounded env 7 store "plan B" newer 5 newer-apart newer-IsBounded

set_plan_content-content_example :
    (set_plan_content env 7 store "plan A" older 5).1.plan_content ≡ "plan A"
set_plan_content-content_example = set_plan_content-content env 7 store "plan A" older 5 refl
