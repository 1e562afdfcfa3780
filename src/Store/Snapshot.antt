-- ===== src/Store/Snapshot.antt =====
-- session/store.go: `WriteSnapshot` and `Restore` of a store. `none` is a panic, or an error of
-- encoding/gob, which makes of each session what `exported` gives.
use mathlib.Core.Option
use peek_mcp.Prelude.{ℕ, String, List, [], ◌∷◌, Option, none, some}
use peek_mcp.Prelude.Assoc.{Assoc, lookup, insert}
use peek_mcp.Events.{session_created}
use peek_mcp.Session.State.{Session}
use peek_mcp.Session.Snapshot.{SessionGob, SessionSnapshot, new_session_snapshot, exported, restore}
use peek_mcp.Store.State.{Store, publish}
use peek_mcp.Watcher.State.{FileState}
pub mod Restored

-- `StoreSnapshot`
pub record StoreSnapshot : Type 0 where
  pub files : Assoc FileState
  pub plain_title_by_id : Assoc String
  pub sessions : List SessionSnapshot

unfoldable pub snapshots_of : Assoc Session → List SessionSnapshot
snapshots_of [] = []
snapshots_of ((id, session) ∷ sessions) = new_session_snapshot session ∷ snapshots_of sessions

-- The snapshot that `s.WriteSnapshot(files, writer)` encodes.
abbrev pub written : {Files : Type 0} → Store Files → Assoc FileState → StoreSnapshot
written s files = record {
  files = files;
  plain_title_by_id = s.plain_title_by_id;
  sessions = snapshots_of s.sessions;
}

module _ {Bytes : Type 0} (gob : SessionGob Bytes) where
  abbrev pub cons_session :
      Option SessionSnapshot → Option (List SessionSnapshot) → Option (List SessionSnapshot)
  cons_session none items = none
  cons_session (some item) none = none
  cons_session (some item) (some items) = some (item ∷ items)

  unfoldable pub exported_all : List SessionSnapshot → Option (List SessionSnapshot)
  exported_all [] = some []
  exported_all (item ∷ items) = cons_session (exported gob item) (exported_all items)

  -- What `ReadStoreSnapshot` decodes of what was encoded.
  abbrev pub read_back : StoreSnapshot → Option StoreSnapshot
  read_back snapshot =
      Option.map (λ sessions. record snapshot { sessions = sessions })
        (exported_all snapshot.sessions)

-- The loop over the titles.
unfoldable pub restore_titles : Assoc String → Assoc String → Assoc String
restore_titles titles [] = titles
restore_titles titles ((id, title) ∷ rest) = restore_titles (insert id title titles) rest

module _ {Files : Type 0} where
  abbrev pub take_session : ℕ → Store Files → Session → Store Files
  take_session now s session =
      publish now session_created session.meta.session_id session.agent
        (record s { sessions = insert session.meta.session_id session s.sessions })

  -- The loop over the sessions; `now` is `time.Now()`.
  unfoldable pub restore_sessions : ℕ → Store Files → List SessionSnapshot → Option (Store Files)
  restore_sessions now s [] = some s
  restore_sessions now s (item ∷ items) = elim (restore item) [
    | none ↦ none
    | some session ↦ restore_sessions now (take_session now s session) items
  ]

  abbrev pub with_titles : Assoc String → Store Files → Store Files
  with_titles titles s = record s { plain_title_by_id = restore_titles s.plain_title_by_id titles }

  -- `s.Restore(snapshot)`
  unfoldable pub restore_store : ℕ → Store Files → StoreSnapshot → Option (Store Files)
  unfolding restore_sessions
  restore_store now s snapshot =
      Option.map (with_titles snapshot.plain_title_by_id) (restore_sessions now s snapshot.sessions)
