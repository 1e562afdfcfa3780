-- ===== src/Store/Snapshot/Restored.antt =====
-- session/store.go: a store that goes through a snapshot comes back.

use peek_mcp.Prelude.{
  ℕ, ◌≡◌, refl, sym, ap, ◌∙◌, String, List, [], ◌∷◌, Option, none, some, arith, str_eq, eq_iff,
  eq_refl, Bool-cases, inl, inr, if◌then◌else◌,
}
use peek_mcp.Prelude.Assoc.{Assoc, lookup, insert, lookup-insert}
use peek_mcp.Session.State.{Session}
use peek_mcp.Prelude.Gob.{Carries}
use peek_mcp.Session.Usage.{Usage}
use peek_mcp.Session.Snapshot.{SessionGob, SessionSnapshot}
use peek_mcp.Session.Snapshot.Restored.{Encodes, restore-new_session_snapshot}
use peek_mcp.Store.State.{Store, publish}
use peek_mcp.Store.Sound.{AllSound, StoreSound}
use peek_mcp.Watcher.State.{FileState}
use peek_mcp.Store.Snapshot.{
  StoreSnapshot, snapshots_of, written, exported_all, read_back, restore_titles, take_session,
  restore_sessions, restore_store, with_titles,
}

-- The keys are those of a map: each once.
abbrev pub IsMap : {V : Type 0} → Assoc V → Type 0
IsMap [] = Unit
IsMap ((key, v) ∷ m) = (lookup key m ≡ none) × IsMap m

-- Each session stands under its id.
abbrev pub Named : Assoc Session → Type 0
Named [] = Unit
Named ((id, session) ∷ m) = (session.meta.session_id ≡ id) × Named m

abbrev or_else : {A : Type 0} → Option A → Option A → Option A
or_else none o = o
or_else (some a) o = some a

or_else-none : {A : Type 0} (o : Option A) → or_else o none ≡ o
or_else-none none = refl
or_else-none (some a) = refl

-- A write of a key that comes first.
lookup-first :
    {V : Type 0} (key q : String) (v : V) (m n : Assoc V)
    → lookup key m ≡ none
    → or_else (lookup q m) (lookup q (insert key v n))
      ≡ or_else (lookup q ((key, v) ∷ m)) (lookup q n)
unfolding lookup
lookup-first key q v m n new = elim (Bool-cases (str_eq key q)) [
  | inl e ↦
      let name : key ≡ q = (eq_iff key q).0 e in
      let gone : lookup q m ≡ none = ap (λ k. lookup k m) (sym name) ∙ new in
      ap (λ o. or_else o (lookup q (insert key v n))) gone ∙ lookup-insert key q v n ∙ rw e refl
  | inr e ↦
      ap (or_else (lookup q m))
        (lookup-insert key q v n ∙ ap (λ b. if b then some v else lookup q n) e)
      ∙ sym (ap (λ b. or_else (if b then some v else lookup q m) (lookup q n)) e)
]

lookup-restore_titles :
    (titles rest : Assoc String) (q : String)
    → IsMap rest
    → lookup q (restore_titles titles rest) ≡ or_else (lookup q rest) (lookup q titles)
unfolding restore_titles lookup
lookup-restore_titles titles [] q h = refl
lookup-restore_titles titles ((id, title) ∷ rest) q (new, h) =
    lookup-restore_titles (insert id title titles) rest q h
    ∙ lookup-first id q title rest titles new

-- A key that comes first in a map does not come again.
lookup-rest :
    {V : Type 0} (key q : String) (v x : V) (m : Assoc V)
    → lookup key m ≡ none
    → lookup q m ≡ some x
    → lookup q ((key, v) ∷ m) ≡ some x
unfolding lookup
lookup-rest key q v x m new found = elim (Bool-cases (str_eq key q)) [
  | inl e ↦
      let gone : lookup q m ≡ none = ap (λ k. lookup k m) (sym ((eq_iff key q).0 e)) ∙ new in
      absurd (ground (arith, sym gone ∙ found))
  | inr e ↦ rw e found
]

lookup-head : {V : Type 0} (key : String) (v : V) (m : Assoc V) → lookup key ((key, v) ∷ m) ≡ some v
unfolding lookup
lookup-head key v m = rw (eq_refl key) refl

-- The buffers of all sessions are encoded without an error.
abbrev pub AllEncodes : {Bytes : Type 0} → SessionGob Bytes → Assoc Session → Type 0
AllEncodes gob [] = Unit
AllEncodes gob ((id, session) ∷ m) = Encodes gob session × AllEncodes gob m

module _ {Files Bytes : Type 0} (gob : SessionGob Bytes) (carries_events : Carries gob.events)
    (carries_turns : Carries gob.turns) where
  restore_sessions-snapshots_of :
      (bases : String → Usage) (now : ℕ) (s : Store Files) (sessions : Assoc Session)
      → AllSound bases sessions
      → AllEncodes gob sessions
      → IsMap sessions
      → Named sessions
      → (received : List SessionSnapshot) × (s' : Store Files) × (exported_all gob
            (snapshots_of sessions)
          ≡ some received)
        × (restore_sessions now s received ≡ some s')
        × ((q : String) → lookup q s'.sessions ≡ or_else (lookup q sessions) (lookup q s.sessions))
        × (s'.plain_title_by_id ≡ s.plain_title_by_id)
  unfolding restore_sessions exported_all snapshots_of publish lookup
  restore_sessions-snapshots_of bases now s [] h c m n = ([], s, refl, refl, λ q. refl, refl)
  restore_sessions-snapshots_of bases now s ((id, session) ∷ sessions) h (encodes, c) (new, m)
        (name, n) =
      let (item, sent, back) =
        restore-new_session_snapshot gob carries_events carries_turns (bases id) session
          (h id session (lookup-head id session sessions)) encodes in
      let (items, s', sent_all, ran, reads, titles) =
        restore_sessions-snapshots_of bases now (take_session now s session) sessions
          (λ q x found. h q x (lookup-rest id q session x sessions new found)) c m n in
      (
        item ∷ items,
        s',
        rw (sent, sent_all) refl,
        rw (back, restore_sessions) ran,
        λ q.
            reads q
            ∙ ap (λ k. or_else (lookup q sessions) (lookup q (insert k session s.sessions))) name
            ∙ lookup-first id q session sessions s.sessions new,
        titles,
      )

  -- A sound store, whose sessions stand under their ids and have buffers that are encoded without
  -- an error, is written to a snapshot, which is decoded without an error if the codecs of the
  -- buffers carry what they encode. A store without sessions and titles that restores it has the
  -- same session and the same title under every id, without a panic.
  pub restore_store-written :
      (now : ℕ) (s fresh : Store Files) (files : Assoc FileState)
      → StoreSound s
      → AllEncodes gob s.sessions
      → IsMap s.sessions
      → Named s.sessions
      → IsMap s.plain_title_by_id
      → fresh.sessions ≡ []
      → fresh.plain_title_by_id ≡ []
      → (received : StoreSnapshot) × (s' : Store Files) × (read_back gob (written s files)
          ≡ some received)
        × (restore_store now fresh received ≡ some s')
        × ((id : String) → lookup id s'.sessions ≡ lookup id s.sessions)
        × ((id : String) → lookup id s'.plain_title_by_id ≡ lookup id s.plain_title_by_id)
  unfolding restore_store lookup
  restore_store-written now s fresh files (bases, h) c m n t none_yet no_titles =
      let (items, s', sent, ran, reads, titles) =
        restore_sessions-snapshots_of bases now fresh s.sessions h.all c m n in
      (
        record (written s files) { sessions = items },
        with_titles s.plain_title_by_id s',
        rw sent refl,
        rw (ran, restore_store) refl,
        λ id.
            reads id
            ∙ ap (λ k. or_else (lookup id s.sessions) (lookup id k)) none_yet
            ∙ or_else-none (lookup id s.sessions),
        λ id.
            lookup-restore_titles s'.plain_title_by_id s.plain_title_by_id id t
            ∙ ap (λ k. or_else (lookup id s.plain_title_by_id) (lookup id k)) (titles ∙ no_titles)
            ∙ or_else-none (lookup id s.plain_title_by_id),
      )
