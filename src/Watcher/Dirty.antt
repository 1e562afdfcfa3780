-- ===== src/Watcher/Dirty.antt =====
-- watcher/watcher.go: a burst of notices on a sound watcher.

use peek_mcp.Prelude.{
  ℕ, ◌+◌, ◌≡◌, refl, sym, ap, ◌∙◌, String, Bool, true, false, not, ◌||◌, List, [], ◌∷◌, Option,
  none, some, arith, str_eq, is_empty, is_some, eq_iff, Bool-cases, Option-cases, inl, inr,
}
use peek_mcp.Prelude.Assoc.{lookup, insert}
use peek_mcp.Prelude.Text.{has_suffix}
use peek_mcp.Prelude.Paths.{base, base-filled}
use peek_mcp.Session.Event.{Event}
use peek_mcp.Session.Turn
use peek_mcp.Store.Env.{Env}
use peek_mcp.Store.State.{Store}
use peek_mcp.Store.Sound.{StoreSound}
use peek_mcp.Store.Sound.Calls.{add_turn_by_session_id-StoreSound}
use peek_mcp.Watcher.Lines.Steps.{read_from-keeps}
use peek_mcp.Watcher.Roots.{
  jsonl_suffix, meta_json_suffix, is_workflow_journal_path, is_subagent_meta_path,
  subagents_root_dir,
}
use peek_mcp.Watcher.State.{LineParser, WatchedFile, Watcher}
use peek_mcp.Watcher.Disk.{Disk, SubagentMeta}
use peek_mcp.Watcher.Reader.{read_new_lines}
use peek_mcp.Watcher.Subagents.{
  result_event, spawn_event, agent_id_of, subagent_turn, read_record, read_journal, journal_of,
  journal_bytes, take_subagent_meta, meta_of_file, read_subagent_meta,
}
use peek_mcp.Watcher.Batch.{is_transcript_path, read_if, read_dirty, read_dirty_paths}
use peek_mcp.Watcher.Sound.{Counted, WatcherSound, HasParsers-insert, read_new_lines-WatcherSound}

-- No name ends both ways.
suffix-apart :
    (path : String) → has_suffix path meta_json_suffix ≡ true → has_suffix path jsonl_suffix ≡ false
unfolding has_suffix
suffix-apart String.[] h = absurd (ground arith)
suffix-apart (String.◌∷◌ c s) h = elim (Bool-cases (str_eq (String.◌∷◌ c s) meta_json_suffix)) [
  | inl e ↦
      let name : String.◌∷◌ c s ≡ meta_json_suffix =
        (eq_iff (String.◌∷◌ c s) meta_json_suffix).0 e in
      ap (λ path. has_suffix path jsonl_suffix) name
  | inr e ↦
      let h' : has_suffix s meta_json_suffix ≡ true = ground arith in
      elim (Bool-cases (str_eq (String.◌∷◌ c s) jsonl_suffix)) [
        | inl f ↦
            let rest : s ≡ "jsonl" = ap tail_of ((eq_iff (String.◌∷◌ c s) jsonl_suffix).0 f) in
            absurd (ground (arith, sym (ap (λ path. has_suffix path meta_json_suffix) rest) ∙ h'))
        | inr f ↦ rw f (suffix-apart s h')
      ]
]
  where
    tail_of : String → String
    tail_of String.[] = String.[]
    tail_of (String.◌∷◌ c s) = s

module _ (env : Env) (P : LineParser) (counted : Counted P) where
  subagent_turn-validate :
      (session_id : String) (event : Event)
      → is_empty session_id ≡ false
      → Turn.validate (some (subagent_turn session_id event)) ≡ none
  unfolding Turn.validate Turn.is_event_signal
  subagent_turn-validate session_id event h = elim (Bool-cases (is_empty event.actor)) [
    | inl e ↦ rw (e, h) refl
    | inr e ↦ rw (e, h) refl
  ]

  read_record-works :
      (disk : Disk) (now : ℕ) (agent session_id : String) (mod_time : ℕ) (store : Store env.Files)
      (line : List ℕ)
      → is_empty session_id ≡ false
      → StoreSound store
      → (store' : Store env.Files) × (read_record env P disk now agent session_id mod_time store
            line
          ≡ some store')
        × StoreSound store'
  unfolding read_record
  read_record-works disk now agent session_id mod_time store line filled h =
      elim (Option-cases (disk.journal_record line)) [
        | inl e ↦ (store, rw (e, read_record) refl, h)
        | inr (found, e) ↦
            elim (Bool-cases (not (str_eq found.type "result") || is_empty found.agent_id)) [
              | inl f ↦ (store, rw (e, read_record, f) refl, h)
              | inr f ↦
                  let event = result_event mod_time found in
                  let (store', ran, h') =
                    add_turn_by_session_id-StoreSound env now store session_id agent
                      (subagent_turn session_id event)
                      (subagent_turn-validate session_id event filled) tt h in
                  (store', rw (e, read_record, f) ran, h')
            ]
      ]

  read_journal-WatcherSound :
      (disk : Disk) (now : ℕ) (w : Watcher env.Files P) (path : String)
      → is_workflow_journal_path path ≡ true
      → WatcherSound w
      → (w' : Watcher env.Files P) × (read_journal env P disk now w path ≡ some w')
        × WatcherSound w'
  unfolding read_journal
  read_journal-WatcherSound disk now w path named h =
      elim (Bool-cases (is_empty (subagents_root_dir path))) [
        | inl e ↦ (w, rw e refl, h)
        | inr e ↦ elim (Option-cases (journal_bytes env P disk path)) [
          | inl f ↦ (w, rw (e, read_journal, f) refl, h)
          | inr ((content, mod_time), f) ↦
              let watched = journal_of env P w path in
              let id = base (subagents_root_dir path) in
              let (n, store, ran, h') =
                read_from-keeps (read_record env P disk now w.agent id mod_time) (λ s. StoreSound s)
                  (λ s line k.
                    read_record-works disk now w.agent id mod_time s line
                      (base-filled (subagents_root_dir path)) k)
                  watched.offset w.store content h.store in
              let after = record watched { offset = watched.offset + n } in
              (
                record w { files = insert path after w.files; store = store },
                rw (e, read_journal, f, ran) refl,
                record {
                  parsers =
                      HasParsers-insert env P counted path after w.files
                        (λ suffix other. absurd (ground (arith, named, other))) h.parsers;
                  store = h';
                },
              )
        ]
      ]

  take_subagent_meta-WatcherSound :
      (disk : Disk) (now : ℕ) (w : Watcher env.Files P) (path : String) (size mod_time : ℕ)
      (meta : SubagentMeta)
      → has_suffix path meta_json_suffix ≡ true
      → WatcherSound w
      → (w' : Watcher env.Files P) × (take_subagent_meta env P disk now w path (size, mod_time) meta
          ≡ some w')
        × WatcherSound w'
  unfolding take_subagent_meta
  take_subagent_meta-WatcherSound disk now w path size mod_time meta suffix h =
      let file : WatchedFile P = record { offset = size; parser = none } in
      let files = insert path file w.files in
      let parsers =
        HasParsers-insert env P counted path file w.files
          (λ transcript other. absurd (ground (arith, suffix-apart path suffix, transcript)))
          h.parsers in
      let root = subagents_root_dir path in
      elim (Bool-cases (is_empty root)) [
        | inl e ↦
            (record w { files = files }, rw e refl, record { parsers = parsers; store = h.store })
        | inr e ↦
            let event = spawn_event disk path (agent_id_of path) root mod_time meta in
            let (store, ran, h') =
              add_turn_by_session_id-StoreSound env now w.store (base root) w.agent
                (subagent_turn (base root) event)
                (subagent_turn-validate (base root) event (base-filled root)) tt h.store in
            (
              record w { files = files; store = store },
              rw (e, ran) refl,
              record { parsers = parsers; store = h' },
            )
      ]

  read_subagent_meta-WatcherSound :
      (disk : Disk) (now : ℕ) (w : Watcher env.Files P) (path : String)
      → has_suffix path meta_json_suffix ≡ true
      → WatcherSound w
      → (w' : Watcher env.Files P) × (read_subagent_meta env P disk now w path ≡ some w')
        × WatcherSound w'
  unfolding read_subagent_meta
  read_subagent_meta-WatcherSound disk now w path suffix h =
      elim (Bool-cases (is_some (lookup path w.files))) [
        | inl e ↦ (w, rw e refl, h)
        | inr e ↦ elim (Option-cases (meta_of_file env P disk path)) [
          | inl f ↦ (w, rw (e, read_subagent_meta, f) refl, h)
          | inr ((size, mod_time, meta), f) ↦
              let (w', ran, h') =
                take_subagent_meta-WatcherSound disk now w path size mod_time meta suffix h in
              (w', rw (e, read_subagent_meta, f) ran, h')
        ]
      ]

  -- A read under a test.
  read_if-works :
      (test : Bool) (read : Watcher env.Files P → Option (Watcher env.Files P))
      (w : Watcher env.Files P)
      → (test ≡ true → (w' : Watcher env.Files P) × (read w ≡ some w') × WatcherSound w')
      → WatcherSound w
      → (w' : Watcher env.Files P) × (read_if env P test read w ≡ some w') × WatcherSound w'
  read_if-works false read w works h = (w, refl, h)
  read_if-works true read w works h = works refl

  is_transcript_path-suffix :
      (w : Watcher env.Files P) (path : String)
      → is_transcript_path env P w path ≡ true
      → has_suffix path jsonl_suffix ≡ true
  unfolding is_transcript_path
  is_transcript_path-suffix w path h = elim (Bool-cases (has_suffix path jsonl_suffix)) [
    | inl e ↦ e
    | inr e ↦ absurd (ground (arith, sym (transcript e) ∙ h))
  ]
    where
      transcript : has_suffix path jsonl_suffix ≡ false → is_transcript_path env P w path ≡ false
      transcript e = rw e refl

  is_subagent_meta_path-suffix :
      (path : String) → is_subagent_meta_path path ≡ true → has_suffix path meta_json_suffix ≡ true
  unfolding is_subagent_meta_path
  is_subagent_meta_path-suffix path h = ground arith

  read_dirty-WatcherSound :
      (disk : Disk) (now : ℕ) (w : Watcher env.Files P) (path : String)
      → WatcherSound w
      → (w' : Watcher env.Files P) × (read_dirty env P disk now w path ≡ some w') × WatcherSound w'
  unfolding read_dirty
  read_dirty-WatcherSound disk now w path h = elim (Bool-cases (is_workflow_journal_path path)) [
    | inl e ↦
        let (w', ran, h') = read_journal-WatcherSound disk now w path e h in
        (w', rw (e, read_dirty) ran, h')
    | inr e ↦
        let (v, read, k) =
          read_if-works (is_transcript_path env P w path)
            (λ u. read_new_lines env P disk now u path) w
            (λ t.
              read_new_lines-WatcherSound env P counted disk now w path
                (is_transcript_path-suffix w path t) e h)
            h in
        let (w', ran, h') =
          read_if-works (is_subagent_meta_path path) (λ u. read_subagent_meta env P disk now u path)
            v
            (λ m.
              read_subagent_meta-WatcherSound disk now v path (is_subagent_meta_path-suffix path m)
                k)
            k in
        (w', rw (e, read_dirty, read) ran, h')
  ]

  -- If every count that the parser gives is a 64-bit word, a sound watcher takes in every sequence of
  -- dirty paths, on any disk, without a panic, and is sound afterwards: its store is, and each file
  -- whose name says that it is a transcript has a parser.
  pub read_dirty_paths-WatcherSound :
      (disk : Disk) (now : ℕ) (w : Watcher env.Files P) (paths : List String)
      → WatcherSound w
      → (w' : Watcher env.Files P) × (read_dirty_paths env P disk now w paths ≡ some w')
        × WatcherSound w'
  unfolding read_dirty_paths
  read_dirty_paths-WatcherSound disk now w [] h = (w, refl, h)
  read_dirty_paths-WatcherSound disk now w (path ∷ paths) h =
      let (v, read, k) = read_dirty-WatcherSound disk now w path h in
      let (w', ran, h') = read_dirty_paths-WatcherSound disk now v paths k in
      (w', rw (read, read_dirty_paths) ran, h')
