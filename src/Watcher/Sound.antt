-- ===== src/Watcher/Sound.antt =====
-- watcher/watcher.go: a watcher whose store is sound stays so, whatever the files hold.

use peek_mcp.Prelude.{
  ℕ, ◌+◌, ◌≡◌, refl, ap, ◌∙◌, String, true, false, List, Option, none, some, arith, str_eq,
  is_empty, is_some, eq_iff, Bool-cases, Option-cases, inl, inr,
}
use peek_mcp.Prelude.Assoc.{Assoc, lookup, insert, lookup-insert}
use peek_mcp.Prelude.Text.{has_suffix}
use peek_mcp.Session.Meta.{Meta}
use peek_mcp.Session.Turn
use peek_mcp.Session.Turn.{Turn, meta_of_validate}
use peek_mcp.Store.Env.{Env}
use peek_mcp.Store.State.{Store}
use peek_mcp.Store.Sound.{StoreSound}
use peek_mcp.Store.Sound.AddTurn.{UsageIsWords}
use peek_mcp.Store.Sound.Calls.{add_turn_by_session_id-StoreSound}
use peek_mcp.Watcher.Lines.Steps.{read_from-keeps}
use peek_mcp.Watcher.Roots.{jsonl_suffix, is_workflow_journal_path}
use peek_mcp.Watcher.State.{LineParser, WatchedFile, Watcher, found_or}
use peek_mcp.Watcher.Disk.{Disk}
use peek_mcp.Watcher.Reader.{
  stamp_project, stamped, take_turn, read_line, transcript_of, read_new_lines,
}

-- Every count of a usage that a parser gives is a 64-bit word.
abbrev pub Counted : LineParser → Type 0
Counted P =
    (carried : P.Carried) (line : List ℕ) (turn : Turn)
    → (P.parse_line carried line).1 ≡ some turn
    → UsageIsWords turn.usage

-- A file whose name says that it is a transcript has a parser.
abbrev pub HasParsers : (P : LineParser) → Assoc (WatchedFile P) → Type 0
HasParsers P files =
    (path : String) (watched : WatchedFile P)
    → has_suffix path jsonl_suffix ≡ true
    → is_workflow_journal_path path ≡ false
    → lookup path files ≡ some watched
    → is_some watched.parser ≡ true

pub record WatcherSound {Files : Type 0} {P : LineParser} (w : Watcher Files P) : Type 0 where
  pub parsers : HasParsers P w.files
  pub store : StoreSound w.store

module _ (env : Env) (P : LineParser) (counted : Counted P) where
  -- The state of the reading of a transcript.
  abbrev Reading : Option P.Carried × Store env.Files → Type 0
  Reading (parser, store) = (is_some parser ≡ true) × StoreSound store

  stamp_project-session :
      (w : Watcher env.Files P) (meta : Meta)
      → (stamp_project env P w meta).session_id ≡ meta.session_id
  unfolding stamp_project
  stamp_project-session w meta = elim (Bool-cases (is_empty w.project)) [
    | inl e ↦ rw e refl
    | inr e ↦ rw e refl
  ]

  take_turn-nil :
      (now : ℕ) (w : Watcher env.Files P) (path : String) (store : Store env.Files)
      → take_turn env P now w path store none ≡ some store
  unfolding take_turn Turn.validate
  take_turn-nil now w path store = refl

  take_turn-works :
      (now : ℕ) (w : Watcher env.Files P) (path : String) (store : Store env.Files)
      (parsed : Option Turn)
      → ((turn : Turn) → parsed ≡ some turn → UsageIsWords turn.usage)
      → StoreSound store
      → (store' : Store env.Files) × (take_turn env P now w path store parsed ≡ some store')
        × StoreSound store'
  unfolding take_turn
  take_turn-works now w path store none words h = (store, take_turn-nil now w path store, h)
  take_turn-works now w path store (some turn) words h =
      elim (Option-cases (Turn.validate (some turn))) [
        | inr (message, e) ↦ (store, rw e refl, h)
        | inl e ↦
            let (meta, m) = meta_of_validate turn e in
            let meta' = stamp_project env P w meta in
            let valid =
              Turn.validate-restamped turn path meta meta' m (stamp_project-session w meta) ∙ e in
            let (store', ran, h') =
              add_turn_by_session_id-StoreSound env now store meta.session_id w.agent
                (stamped env P w path turn meta) valid (words turn refl) h in
            (store', rw (e, m) ran, h')
      ]

  read_line-works :
      (now : ℕ) (w : Watcher env.Files P) (path : String) (r : Option P.Carried × Store env.Files)
      (line : List ℕ)
      → Reading r
      → (r' : Option P.Carried × Store env.Files) × (read_line env P now w path r line ≡ some r')
        × Reading r'
  unfolding read_line
  read_line-works now w path (none, store) line (present, h) = absurd (ground arith)
  read_line-works now w path (some carried, store) line (present, h) =
      let parsed = P.parse_line carried line in
      let (store', ran, h') = take_turn-works now w path store parsed.1 (counted carried line) h in
      ((some parsed.0, store'), rw ran refl, (refl, h'))

  pub HasParsers-insert :
      (path : String) (watched : WatchedFile P) (files : Assoc (WatchedFile P))
      → (has_suffix path jsonl_suffix ≡ true
          → is_workflow_journal_path path ≡ false
          → is_some watched.parser ≡ true)
      → HasParsers P files
      → HasParsers P (insert path watched files)
  HasParsers-insert path watched files new old q found suffix other e =
      elim (Bool-cases (str_eq path q)) [
        | inl same ↦
            let name : path ≡ q = (eq_iff path q).0 same in
            let it : found ≡ watched = ground (arith, lookup-insert path q watched files) in
            rw it (new (rw name suffix) (rw name other))
        | inr apart ↦ old q found suffix other (ground (arith, lookup-insert path q watched files))
      ]

  transcript_of-parser :
      (w : Watcher env.Files P) (path : String)
      → HasParsers P w.files
      → has_suffix path jsonl_suffix ≡ true
      → is_workflow_journal_path path ≡ false
      → is_some (transcript_of env P w path).parser ≡ true
  transcript_of-parser w path h suffix other = elim (Option-cases (lookup path w.files)) [
    | inl e ↦ ap (λ o. is_some (found_or {P = P} o fresh).parser) e
    | inr (watched, e) ↦
        ap (λ o. is_some (found_or {P = P} o fresh).parser) e ∙ h path watched suffix other e
  ]
    where
      fresh : WatchedFile P
      fresh = record { offset = 0; parser = some P.fresh }

  -- The reading of a transcript never panics, and leaves a sound watcher.
  pub read_new_lines-WatcherSound :
      (disk : Disk) (now : ℕ) (w : Watcher env.Files P) (path : String)
      → has_suffix path jsonl_suffix ≡ true
      → is_workflow_journal_path path ≡ false
      → WatcherSound w
      → (w' : Watcher env.Files P) × (read_new_lines env P disk now w path ≡ some w')
        × WatcherSound w'
  unfolding read_new_lines
  read_new_lines-WatcherSound disk now w path suffix other h =
      elim (Option-cases (disk.content path)) [
        | inl e ↦ (w, rw (e, read_new_lines) refl, h)
        | inr (content, e) ↦
            let watched = transcript_of env P w path in
            let (n, (parser, store), ran, (present, h')) =
              read_from-keeps (read_line env P now w path) Reading (read_line-works now w path)
                watched.offset (watched.parser, w.store) content
                (transcript_of-parser w path h.parsers suffix other, h.store) in
            (
              record w {
                files =
                    insert path (record { offset = watched.offset + n; parser = parser }) w.files;
                store = store;
              },
              rw (e, ran, read_new_lines) refl,
              record {
                parsers =
                    HasParsers-insert path (record { offset = watched.offset + n; parser = parser })
                      w.files (λ s o. present) h.parsers;
                store = h';
              },
            )
      ]
