-- ===== src/Store/Diff.antt =====
-- session/store.go: diffs of sessions, live and as snapshots. `none` is the result of a panic or,
-- where the code returns `ok`, of its `false`.

use peek_mcp.Prelude.{
  ℕ, String, Bool, true, false, not, ◌&&◌, ◌||◌, List, [], ◌∷◌, none, some, take, keep, map,
  is_empty, ◌==◌, if◌then◌else◌,
}
use peek_mcp.Prelude.Words.{is_negative}
use peek_mcp.Prelude.Assoc.{lookup, insert}
use peek_mcp.Events.{diff_updated, uncommitted_diff_updated}
use peek_mcp.Session.SnapshotCache
use peek_mcp.Session.SnapshotCache.{SnapshotCache}
use peek_mcp.Session.State.{Session, DiffSource, live, snapshot}
use peek_mcp.Store.Env.{Env}
use peek_mcp.Store.State.{Store, publish, truncate}
use peek_mcp.Store.Find.{sort_sessions_by_last_active_desc}

module _ {Files : Type 0} where
  -- A write to the session of an id, where there is one.
  unfoldable pub with_session : String → (Session → Session) → Store Files → Store Files
  with_session id f s = elim (lookup id s.sessions) [
    | none ↦ s
    | some session ↦ record s { sessions = insert id (f session) s.sessions }
  ]

  -- `s.UpdateDiff(id, target, output)`
  unfoldable pub update_diff : ℕ → String → String → String → Store Files → Store Files
  update_diff now id target output s = elim (lookup id s.sessions) [
    | none ↦ s
    | some session ↦ publish now diff_updated id session.agent (record s {
      sessions =
          insert id
            (record session {
              diff_output = output;
              diff_target = target;
              diff_source = live;
              diff_captured_at = now;
            })
            s.sessions;
    })
  ]

  -- `s.MarkDiffSnapshot(id)`
  unfoldable pub mark_diff_snapshot : String → Store Files → Store Files
  unfolding with_session
  mark_diff_snapshot id = with_session id λ session.
      if is_empty session.diff_output && not session.has_diff_snapshot
      then session
      else record session { diff_source = snapshot }

  -- `s.MarkSnapshotPersisted(id, output)`
  unfoldable pub mark_snapshot_persisted : String → String → Store Files → Store Files
  unfolding with_session
  mark_snapshot_persisted id output s =
      let s' = with_session id (λ session. record session { has_diff_snapshot = true }) s in
      record s' { snapshots = SnapshotCache.put s'.snapshots id (truncate output) }

  -- `s.PinDiffBase(id, sha, target)`
  unfoldable pub pin_diff_base : String → String → String → Store Files → Store Files
  unfolding with_session
  pin_diff_base id sha target =
      with_session id (λ session. record session { diff_base = sha; diff_target = target })

  -- `s.UpdateUncommittedDiff(id, output)`
  unfoldable pub update_uncommitted_diff : ℕ → String → String → Store Files → Store Files
  update_uncommitted_diff now id output s = elim (lookup id s.sessions) [
    | none ↦ s
    | some session ↦ publish now uncommitted_diff_updated id session.agent (record s {
      sessions = insert id (record session { uncommitted_diff = truncate output }) s.sessions;
    })
  ]

abbrev pub is_live_source : DiffSource → Bool
is_live_source live = true
is_live_source _ = false

-- The results `(content, target, ok)` of `LoadDiff`.
pub record LoadedDiff : Type 0 where
  pub content : String
  pub target : String
  pub ok : Bool

module _ (env : Env) where
  -- The part of `LoadDiff` after the cache has missed.
  unfoldable pub load_from_disk : Store env.Files → String → Session → LoadedDiff × Store env.Files
  load_from_disk s id session = elim (env.read_diff_snapshot s.files session.agent id) [
    | none ↦ (record { content = ""; target = session.diff_target; ok = false }, s)
    | some (content, _) ↦ (
      record { content = content; target = session.diff_target; ok = true },
      record s { snapshots = SnapshotCache.put s.snapshots id content },
    )
  ]

  unfoldable pub load_snapshot : Store env.Files → String → Session → LoadedDiff × Store env.Files
  unfolding load_from_disk
  load_snapshot s id session =
      let (cached, snapshots) = SnapshotCache.get s.snapshots id in
      let s' = record s { snapshots = snapshots } in
      elim cached [
        | some content ↦ (record { content = content; target = session.diff_target; ok = true }, s')
        | none ↦ load_from_disk s' id session
      ]

  -- `s.LoadDiff(id)`
  unfoldable pub load_diff : Store env.Files → String → LoadedDiff × Store env.Files
  unfolding load_snapshot
  load_diff s id = elim (lookup id s.sessions) [
    | none ↦ (record { content = ""; target = ""; ok = false }, s)
    | some session ↦
        if is_live_source session.diff_source && not (is_empty session.diff_output)
        then (record { content = session.diff_output; target = session.diff_target; ok = true }, s)
        else if not session.has_diff_snapshot || not s.has_state_dir
        then (record { content = ""; target = session.diff_target; ok = false }, s)
        else load_snapshot s id session
  ]

  -- The loop of `SeedDiffCache`, which goes from the last candidate to the first.
  unfoldable pub seed_all : Store env.Files → List Session → Store env.Files
  seed_all s [] = s
  seed_all s (session ∷ candidates) =
      let s' = seed_all s candidates in
      let id = session.meta.session_id in
      elim (env.read_diff_snapshot s'.files session.agent id) [
        | none ↦ s'
        | some (content, _) ↦ record s' { snapshots = SnapshotCache.put s'.snapshots id content }
      ]

  -- `s.SeedDiffCache()`
  unfoldable pub seed_diff_cache : Store env.Files → Store env.Files
  unfolding seed_all is_negative
  seed_diff_cache s =
      let capacity = s.snapshots.capacity in
      if not s.has_state_dir || (is_negative capacity || capacity == 0)
      then s
      else let candidates =
          sort_sessions_by_last_active_desc
            (keep (λ session. session.has_diff_snapshot) (map (λ p. p.1) s.sessions)) in
        seed_all s (take capacity candidates)
