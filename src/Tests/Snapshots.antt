-- ===== src/Tests/Snapshots.antt =====
-- A session and a store that go through a snapshot.
use mathlib.Core.Path.{subst}
use mathlib.Core.Option.{some-injective}
use peek_mcp.Prelude.{
  ◌≡◌, refl, sym, ap, String, true, [], ◌∷◌, none, some, arith, str_eq, Bool-cases, ◌⊎◌, inl, inr,
}
use peek_mcp.Prelude.Assoc.{Assoc, lookup}
use peek_mcp.Session.EventBuffer
use peek_mcp.Session.EventBuffer.{EventBufferSnapshot}
use peek_mcp.Session.TurnBuffer
use peek_mcp.Session.TurnBuffer.{TurnBufferSnapshot}
use peek_mcp.Events.{new_broker}
use peek_mcp.Session.Usage.{Usage, zero_usage}
use peek_mcp.Session.State.{Session, SubagentStat}
use peek_mcp.Session.AddTurn.{add_turn}
use peek_mcp.Session.Sound.{IsSound}
use peek_mcp.Session.Sound.Turns.{add_turn-IsSound}
use peek_mcp.Session.Snapshot.{SessionGob, SessionSnapshot, new_session_snapshot, exported, restore}
use peek_mcp.Session.Snapshot.Restored.{AllEncode, Encodes, restore-new_session_snapshot}
use peek_mcp.Session.TurnBuffer.Window.{IsValid}
use peek_mcp.Store.State.{Store, new_store}
use peek_mcp.Store.AddTurn.{new_session}
use peek_mcp.Store.Fresh.{new_session-IsSound}
use peek_mcp.Store.Sound.{StoreSound}
use peek_mcp.Store.Snapshot.{StoreSnapshot, read_back, restore_store, written}
use peek_mcp.Store.Snapshot.Restored.{IsMap, Named, restore_store-written}
use peek_mcp.Tests.Data.{chunk, empty_ring, sample_meta}

ring-IsValid : IsValid empty_ring
ring-IsValid = record { positive = omega arith; signed = omega arith; within = omega arith }

-- A session with a turn, whose request is in the ledger.
counted :
    (s : Session) × (add_turn (new_session "s1" "claude" empty_ring) chunk ≡ some s)
    × IsSound zero_usage s
counted =
    add_turn-IsSound (new_session "s1" "claude" empty_ring) chunk sample_meta refl
      (new_session-IsSound "s1" "claude" empty_ring ring-IsValid)

-- Bytes that are what they encode.
abbrev gob : SessionGob (EventBufferSnapshot ⊎ TurnBufferSnapshot)
gob = record {
  events = record {
    encode = λ snapshot. some (inl snapshot);
    decode = λ bytes. elim bytes [ inl snapshot ↦ some snapshot | inr snapshot ↦ none ];
  };
  turns = record {
    encode = λ snapshot. some (inr snapshot);
    decode = λ bytes. elim bytes [ inl snapshot ↦ none | inr snapshot ↦ some snapshot ];
  };
}

decode_events-some :
    (a : EventBufferSnapshot) (bytes : EventBufferSnapshot ⊎ TurnBufferSnapshot)
    → gob.events.encode a ≡ some bytes
    → gob.events.decode bytes ≡ some a
decode_events-some a bytes e = ap gob.events.decode (sym (some-injective (inl a) bytes e))

decode_turns-some :
    (a : TurnBufferSnapshot) (bytes : EventBufferSnapshot ⊎ TurnBufferSnapshot)
    → gob.turns.encode a ≡ some bytes
    → gob.turns.decode bytes ≡ some a
decode_turns-some a bytes e = ap gob.turns.decode (sym (some-injective (inr a) bytes e))

subagents-encode : (stats : Assoc SubagentStat) → AllEncode gob stats
unfolding TurnBuffer.gob_encode
subagents-encode [] = tt
subagents-encode ((id, stat) ∷ stats) = (refl, subagents-encode stats)

encodes : (s : Session) → Encodes gob s
unfolding EventBuffer.gob_encode TurnBuffer.gob_encode
encodes s = record { events = refl; turns = refl; subagents = subagents-encode s.subagents }

restore-new_session_snapshot_example :
    (received : SessionSnapshot) × (exported gob (new_session_snapshot counted.0) ≡ some received)
    × (restore received ≡ some counted.0)
restore-new_session_snapshot_example =
    restore-new_session_snapshot gob decode_events-some decode_turns-some zero_usage counted.0
      counted.2 (encodes counted.0)

abbrev empty_store : Store String
empty_store = new_store "plan A" true 3 2 new_broker ("claude" ∷ "codex" ∷ [])

abbrev full_store : Store String
full_store = record empty_store {
  plain_title_by_id = ("s1", "Fix the parser") ∷ [];
  sessions =
      ("s1", new_session "s1" "claude" empty_ring)
      ∷ ("s2", new_session "s2" "codex" empty_ring)
      ∷ [];
}

abbrev no_bases : String → Usage
no_bases id = zero_usage

new_sound :
    (id agent : String) (session : Session)
    → some (new_session id agent empty_ring) ≡ some session
    → IsSound zero_usage session
new_sound id agent session e =
    subst (IsSound zero_usage) (some-injective (new_session id agent empty_ring) session e)
      (new_session-IsSound id agent empty_ring ring-IsValid)

full_store-Sound : StoreSound full_store
unfolding new_store lookup
full_store-Sound = (
  no_bases,
  record {
    deep = omega arith;
    signed = omega arith;
    all = λ id session found. elim (Bool-cases (str_eq "s1" id)) [
      | inl e ↦ new_sound "s1" "claude" session (rw e at found)
      | inr e ↦ elim (Bool-cases (str_eq "s2" id)) [
        | inl f ↦ new_sound "s2" "codex" session (rw (e, f) at found)
        | inr f ↦ absurd (ground (arith, rw (e, f) at found))
      ]
    ];
  },
)

sessions-IsMap : IsMap full_store.sessions
unfolding lookup
sessions-IsMap = (refl, (refl, tt))

titles-IsMap : IsMap full_store.plain_title_by_id
unfolding lookup
titles-IsMap = (refl, tt)

sessions-Named : Named full_store.sessions
unfolding new_session
sessions-Named = (refl, (refl, tt))

no_sessions : empty_store.sessions ≡ []
unfolding new_store
no_sessions = refl

no_titles : empty_store.plain_title_by_id ≡ []
unfolding new_store
no_titles = refl

restore_store-written_example :
    (received : StoreSnapshot) × (s : Store String) × (read_back gob (written full_store [])
      ≡ some received)
    × (restore_store 7 empty_store received ≡ some s)
    × ((id : String) → lookup id s.sessions ≡ lookup id full_store.sessions)
    × ((id : String) → lookup id s.plain_title_by_id ≡ lookup id full_store.plain_title_by_id)
restore_store-written_example =
    restore_store-written gob decode_events-some decode_turns-some 7 full_store empty_store []
      full_store-Sound
      (
        encodes (new_session "s1" "claude" empty_ring),
        (encodes (new_session "s2" "codex" empty_ring), tt),
      )
      sessions-IsMap sessions-Named titles-IsMap no_sessions no_titles
