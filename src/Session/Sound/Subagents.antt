-- ===== src/Session/Sound/Subagents.antt =====
-- session/session.go: soundness under `AddSubagentTurn` and its parts.
use mathlib.Core.Option
use peek_mcp.Prelude.{
  ◌≡◌, refl, ap, ◌∙◌, String, true, List, [], ◌∷◌, Option, none, some, length, arith, is_empty,
  is_some, eq_iff, eq_refl, Bool-cases, Option-cases, inl, inr, leb, if◌then◌else◌,
}
use peek_mcp.Prelude.Words.{lt64}
use peek_mcp.Prelude.Assoc.{Assoc, lookup, insert, lookup-insert}
use peek_mcp.Session.Event.{Event, is_spawned}
use peek_mcp.Session.Turn.{Turn}
use peek_mcp.Session.TurnBuffer
use peek_mcp.Session.TurnBuffer.{TurnBuffer}
use peek_mcp.Session.TurnBuffer.Window.{IsValid}
use peek_mcp.Session.Usage.{Usage}
use peek_mcp.Session.State.{Session, SubagentStat, subagent_usage, max_subagent_stats}
use peek_mcp.Session.Requests.Targets.{usage_of_subagent}
use peek_mcp.Session.Turns.{apply_tool_results}
use peek_mcp.Session.Turns.Results.{apply_tool_results-size}
use peek_mcp.Session.AddTurn.{count_usage}
use peek_mcp.Session.Subagents.{
  new_subagent, subagent_depth, model_of, fold_turn, stamp_subagent, describe, describe_with,
  note_turn, update_stat, find_stat, add_subagent_turn,
}
use peek_mcp.Session.Sound.{IsSound}
use peek_mcp.Session.Sound.Frame.{Balances-SameTotals, AllRings-insert, AllRings-lookup}
use peek_mcp.Session.Sound.Turns.{append_turn-IsValid, count_usage-IsSound}

apply_tool_results-IsValid :
    (stat : SubagentStat) (turn : Turn)
    → IsValid stat.turns
    → IsValid (apply_tool_results stat.turn_active stat.turns turn.tool_results).1
apply_tool_results-IsValid stat turn v =
    let (c, n) = apply_tool_results-size stat.turn_active stat.turns turn.tool_results in
    record { positive = rw c v.positive; signed = rw c v.signed; within = rw (c, n) v.within }

fold_turn-IsValid :
    (stat : SubagentStat) (turn : Turn)
    → IsValid stat.turns
    → (stat' : SubagentStat) × (fold_turn stat turn ≡ some stat')
      × IsValid stat'.turns
      × (stat'.usage ≡ stat.usage)
unfolding fold_turn
fold_turn-IsValid stat turn v =
    let active = (apply_tool_results stat.turn_active stat.turns turn.tool_results).0 in
    let turns = (apply_tool_results stat.turn_active stat.turns turn.tool_results).1 in
    let marked = record stat { turn_active = active; turns = turns } in
    let v' = apply_tool_results-IsValid stat turn v in
    let (next, buffer, ran, w) = append_turn-IsValid active turns turn v' in
    elim (Bool-cases (is_empty turn.role)) [
      | inl e ↦ (marked, rw e refl, v', refl)
      | inr e ↦
          (record marked { turn_active = some next; turns = buffer }, rw (e, ran) refl, w, refl)
    ]

describe-keeps :
    (stat : SubagentStat) (events : List Event)
    → ((describe stat events).turns ≡ stat.turns) × ((describe stat events).usage ≡ stat.usage)
unfolding describe
describe-keeps stat [] = (refl, refl)
describe-keeps stat (event ∷ events) =
    let stat' = if is_spawned event.kind then describe_with stat event.subagent else stat in
    let (t, u) = describe-keeps stat' events in
    let keeps : (stat'.turns ≡ stat.turns) × (stat'.usage ≡ stat.usage) = ground arith in
    (t ∙ keeps.0, u ∙ keeps.1)

note_turn-keeps :
    (turn : Turn) (stat : SubagentStat)
    → ((note_turn turn stat).turns ≡ stat.turns) × ((note_turn turn stat).usage ≡ stat.usage)
unfolding note_turn
note_turn-keeps turn stat =
    let model = model_of turn.meta in
    let named = if is_empty model then stat else record stat { model = model } in
    let stamped = stamp_subagent named turn.timestamp in
    let keeps : (stamped.turns ≡ stat.turns) × (stamped.usage ≡ stat.usage) = ground arith in
    let (t, u) = describe-keeps stamped turn.events in (t ∙ keeps.0, u ∙ keeps.1)

update_stat-IsValid :
    (stat : SubagentStat) (turn : Turn)
    → IsValid stat.turns
    → (stat' : SubagentStat) × (update_stat stat turn ≡ some stat')
      × IsValid stat'.turns
      × (stat'.usage ≡ stat.usage)
unfolding update_stat
update_stat-IsValid stat turn v =
    let (folded, ran, w, u) = fold_turn-IsValid stat turn v in
    let (t, k) = note_turn-keeps turn folded in
    (note_turn turn folded, ap (Option.map (note_turn turn)) ran, rw t w, k ∙ u)

-- The ring of a new subagent is valid, whatever the depth of the session's.
new_ring :
    (s : Session)
    → IsValid s.turns_finished
    → (ring : TurnBuffer) × (TurnBuffer.new (subagent_depth s) ≡ some ring) × IsValid ring
unfolding TurnBuffer.new lt64
new_ring s v = (
  record { capacity = subagent_depth s; items = []; pushed = 0; pushed_tool_only = 0 },
  ground arith,
  record { positive = ground arith; signed = ground arith; within = omega arith },
)

-- The stat that is found has a valid ring and the usage that the session has for the agent.
find_stat-IsValid :
    {base : Usage} (s : Session) (id : String)
    → IsSound base s
    → (found : Option SubagentStat) × (find_stat s id ≡ some found)
      × ((stat : SubagentStat)
          → found ≡ some stat
          → IsValid stat.turns × (stat.usage ≡ usage_of_subagent (lookup id s.subagents)))
unfolding find_stat usage_of_subagent
find_stat-IsValid {base} s id h = elim (Option-cases (lookup id s.subagents)) [
  | inr (stat, e) ↦ (
    some stat,
    rw (e, find_stat) refl,
    λ st k.
        let same : stat ≡ st = ground arith in
        (rw same at (AllRings-lookup id s.subagents {stat = stat} h.rings e), rw e (ground arith)),
  )
  | inl e ↦ elim (Bool-cases (leb max_subagent_stats (length s.subagents))) [
    | inl full ↦ (none, rw (e, find_stat, full) refl, λ st k. absurd (ground arith))
    | inr room ↦
        let (ring, made, v) = new_ring s h.ring in
        (
          some (new_subagent ring),
          rw (e, find_stat, room, made) refl,
          λ st k. let same : new_subagent ring ≡ st = ground arith in rw (← same) (v, rw e refl),
        )
  ]
]

read_insert :
    (id : String) (stat : SubagentStat) (m : Assoc SubagentStat)
    → stat.usage ≡ usage_of_subagent (lookup id m)
    → (j : String)
    → usage_of_subagent (lookup j (insert id stat m)) ≡ usage_of_subagent (lookup j m)
unfolding usage_of_subagent
read_insert id stat m u j = ground (arith, lookup-insert id j stat m, eq_iff id j)

put_stat-IsSound :
    {base : Usage} (s : Session) (id : String) (stat : SubagentStat)
    → IsSound base s
    → IsValid stat.turns
    → stat.usage ≡ usage_of_subagent (lookup id s.subagents)
    → IsSound base (record s { subagents = insert id stat s.subagents })
put_stat-IsSound {base} s id stat h v u = record {
  ring = h.ring;
  rings = AllRings-insert id stat s.subagents v h.rings;
  windows = h.windows;
  balanced =
      Balances-SameTotals s (record s { subagents = insert id stat s.subagents })
        (record {
          total = refl;
          skills = λ i. refl;
          skill_count = omega arith;
          subagents = read_insert id stat s.subagents u;
          subagent_keys = λ j k. ground (arith, lookup-insert id j stat s.subagents);
          ledger = refl;
        })
        h.balanced;
}

lookup_inserted :
    (id : String) (stat : SubagentStat) (m : Assoc SubagentStat)
    → is_some (lookup id (insert id stat m)) ≡ true
lookup_inserted id stat m = rw (lookup-insert, eq_refl) refl

add_found-IsSound :
    {base : Usage} (s : Session) (turn : Turn) (found : Option SubagentStat)
    → IsSound base s
    → find_stat s turn.subagent_id ≡ some found
    → ((stat : SubagentStat)
        → found ≡ some stat
        → IsValid stat.turns
          × (stat.usage ≡ usage_of_subagent (lookup turn.subagent_id s.subagents)))
    → (s' : Session) × (add_subagent_turn s turn ≡ some s') × IsSound base s'
unfolding add_subagent_turn
add_found-IsSound {base} s turn none h e ok = (s, rw (e, add_subagent_turn) refl, h)
add_found-IsSound {base} s turn (some stat) h e ok =
    let (v, u) = ok stat refl in
    let (stat', ran, w, k) = update_stat-IsValid stat turn v in
    let id = turn.subagent_id in
    let s₁ = record s { subagents = insert id stat' s.subagents } in
    (
      count_usage s₁ (subagent_usage id) id turn turn.usage (model_of turn.meta),
      rw (e, add_subagent_turn, ran) refl,
      count_usage-IsSound s₁ (subagent_usage id) id turn turn.usage (model_of turn.meta)
          (put_stat-IsSound s id stat' h w (k ∙ u)) (lookup_inserted id stat' s.subagents),
    )

-- On a sound session a turn of a subagent is added without a panic, whether the subagent is known,
-- new or dropped for lack of room, and the session stays sound.
pub add_subagent_turn-IsSound :
    {base : Usage} (s : Session) (turn : Turn)
    → IsSound base s
    → (s' : Session) × (add_subagent_turn s turn ≡ some s') × IsSound base s'
add_subagent_turn-IsSound {base} s turn h =
    let (found, e, ok) = find_stat-IsValid s turn.subagent_id h in
    add_found-IsSound s turn found h e ok
