-- ===== src/Watcher/Growth.antt =====
-- watcher/watcher.go: a transcript that is read while it grows.
use mathlib.Core.Path.{fun_ext, subst}
use peek_mcp.Prelude.{
  ℕ, ◌+◌, ◌≤◌, ◌≡◌, refl, sym, ap, ◌∙◌, String, List, ◌++◌, Option, none, some, length, arith,
  Option-cases, inl, inr, eq_refl,
}
use peek_mcp.Prelude.Assoc.{Assoc, lookup, insert, lookup-insert, insert-insert}
use mathlib.Core.Option.{some-injective}
use peek_mcp.Store.Env.{Env}
use peek_mcp.Store.State.{Store}
use peek_mcp.Watcher.Lines.{read_from}
use peek_mcp.Watcher.Lines.Resume.{count_from, read_from-resumes, read_from-within}
use peek_mcp.Watcher.State.{LineParser, WatchedFile, Watcher, found_or}
use peek_mcp.Watcher.Disk.{Disk}
use peek_mcp.Watcher.Reader.{
  stamp_project, take_turn, read_line, transcript_of, keep_read, read_new_lines,
}

module _ (env : Env) (P : LineParser) where
  -- A read writes nothing that the reading of a line asks for.
  read_line-after :
      (now : ℕ) (w : Watcher env.Files P) (path : String) (files : Assoc (WatchedFile P))
      (store : Store env.Files) (r : Option P.Carried × Store env.Files) (line : List ℕ)
      → read_line env P now (record w { files = files; store = store }) path r line
        ≡ read_line env P now w path r line
  unfolding read_line take_turn stamp_project
  read_line-after now w path files store (none, s) line = refl
  read_line-after now w path files store (some carried, s) line = refl

  keep_read-again :
      (w : Watcher env.Files P) (path : String) (offset n : ℕ) (parser : Option P.Carried)
      (store : Store env.Files) (o : Option (ℕ × (Option P.Carried × Store env.Files)))
      → let file : WatchedFile P = record { offset = offset + n; parser = parser } in
        keep_read env P
          (record w { files = insert path file w.files; store = store })
          path
          (offset + n)
          o
        ≡ keep_read env P w path offset (count_from n o)
  keep_read-again w path offset n parser store none = refl
  keep_read-again w path offset n parser store (some (m, (parser', store'))) =
      let first : WatchedFile P = record { offset = offset + n; parser = parser } in
      let last : WatchedFile P = record { offset = offset + n + m; parser = parser' } in
      let count : offset + n + m ≡ offset + (n + m) = omega arith in
      ap (λ files. some (record w { files = files; store = store' }))
        (insert-insert path first last w.files)
      ∙ ap
          (λ end. some (record w {
            files = insert path (record { offset = end; parser = parser' }) w.files;
            store = store';
          }))
          count

  -- The watcher after a first read that consumed `n` bytes.
  abbrev after_read :
      Watcher env.Files P
      → String
      → ℕ
      → ℕ
      → Option P.Carried
      → Store env.Files
      → Watcher env.Files P
  after_read w path offset n parser store = record w {
    files = insert path (record { offset = offset + n; parser = parser }) w.files;
    store = store;
  }

  read_of :
      (disk : Disk) (now : ℕ) (w : Watcher env.Files P) (path : String) (content : List ℕ)
      → disk.content path ≡ some content
      → let watched = transcript_of env P w path in
        read_new_lines env P disk now w path
        ≡ keep_read env P w path watched.offset (
            read_from (read_line env P now w path) watched.offset (watched.parser, w.store) content)
  unfolding read_new_lines
  read_of disk now w path content c = rw (c, read_new_lines) refl

  transcript_of-after_read :
      (w : Watcher env.Files P) (path : String) (offset n : ℕ) (parser : Option P.Carried)
      (store : Store env.Files)
      → transcript_of env P (after_read w path offset n parser store) path
        ≡ record { offset = offset + n; parser = parser }
  transcript_of-after_read w path offset n parser store =
      let file : WatchedFile P = record { offset = offset + n; parser = parser } in
      let fresh : WatchedFile P = record { offset = 0; parser = some P.fresh } in
      let there : lookup path (insert path file w.files) ≡ some file =
        lookup-insert path path file w.files ∙ rw (eq_refl path) refl in
      ap (λ o. found_or {P = P} o fresh) there

  grown :
      (disk : Disk) (now : ℕ) (w : Watcher env.Files P) (path : String) (content more : List ℕ)
      (n : ℕ) (parser : Option P.Carried) (store : Store env.Files)
      → let watched = transcript_of env P w path in
        disk.content path ≡ some (content ++ more)
        → watched.offset ≤ length content
        → read_from (read_line env P now w path) watched.offset (watched.parser, w.store) content
          ≡ some (n, (parser, store))
        → read_new_lines env P disk now (after_read w path watched.offset n parser store) path
          ≡ read_new_lines env P disk now w path
  grown disk now w path content more n parser store c within e =
      let all = content ++ more in
      let watched = transcript_of env P w path in
      let w' = after_read w path watched.offset n parser store in
      let step = read_line env P now w path in
      let again = read_from step (watched.offset + n) (parser, store) all in
      let same : read_line env P now w' path ≡ step =
        fun_ext (λ r. fun_ext (λ line. read_line-after now w path w'.files store r line)) in
      read_of disk now w' path all c
      ∙ ap
          (λ file.
            keep_read env P w' path file.offset
              (read_from (read_line env P now w' path) file.offset (file.parser, store) all))
          (transcript_of-after_read w path watched.offset n parser store)
      ∙ ap
          (λ f.
            keep_read env P w' path (watched.offset + n)
              (read_from f (watched.offset + n) (parser, store) all))
          same
      ∙ keep_read-again w path watched.offset n parser store again
      ∙ ap (keep_read env P w path watched.offset) (
          sym (
            read_from-resumes step watched.offset (watched.parser, w.store) content more n
              (parser, store) within e))
      ∙ sym (read_of disk now w path all c)

  -- Where a transcript was read and has grown since, the next read gives the same watcher as one read
  -- of the whole file by the watcher before: the same store, parser and offset, at one clock. The
  -- offset kept for the file must lie within it, and the first read must not panic.
  pub read_new_lines-resumes :
      (disk disk' : Disk) (now : ℕ) (w w' : Watcher env.Files P) (path : String)
      (content more : List ℕ)
      → disk.content path ≡ some content
      → disk'.content path ≡ some (content ++ more)
      → (transcript_of env P w path).offset ≤ length content
      → read_new_lines env P disk now w path ≡ some w'
      → read_new_lines env P disk' now w' path ≡ read_new_lines env P disk' now w path
  read_new_lines-resumes disk disk' now w w' path content more c c' within e =
      let watched = transcript_of env P w path in
      let step = read_line env P now w path in
      let run = read_from step watched.offset (watched.parser, w.store) content in
      let read = sym (read_of disk now w path content c) ∙ e in
      elim (Option-cases run) [
        | inl f ↦ absurd (ground (arith, sym (ap (keep_read env P w path watched.offset) f) ∙ read))
        | inr ((n, (parser, store)), f) ↦
            let same : some (after_read w path watched.offset n parser store) ≡ some w' =
              sym (ap (keep_read env P w path watched.offset) f) ∙ read in
            let it = some-injective (after_read w path watched.offset n parser store) w' same in
            ap (λ v. read_new_lines env P disk' now v path) (sym it)
            ∙ grown disk' now w path content more n parser store c' within f
      ]

  -- Where the offset kept for a transcript lies within the file, so does the one that a read leaves.
  pub read_new_lines-within :
      (disk : Disk) (now : ℕ) (w w' : Watcher env.Files P) (path : String) (content : List ℕ)
      → disk.content path ≡ some content
      → (transcript_of env P w path).offset ≤ length content
      → read_new_lines env P disk now w path ≡ some w'
      → (transcript_of env P w' path).offset ≤ length content
  read_new_lines-within disk now w w' path content c within e =
      let watched = transcript_of env P w path in
      let step = read_line env P now w path in
      let run = read_from step watched.offset (watched.parser, w.store) content in
      let read = sym (read_of disk now w path content c) ∙ e in
      elim (Option-cases run) [
        | inl f ↦ absurd (ground (arith, sym (ap (keep_read env P w path watched.offset) f) ∙ read))
        | inr ((n, (parser, store)), f) ↦
            let same : some (after_read w path watched.offset n parser store) ≡ some w' =
              sym (ap (keep_read env P w path watched.offset) f) ∙ read in
            let it = some-injective (after_read w path watched.offset n parser store) w' same in
            let there = transcript_of-after_read w path watched.offset n parser store in
            let stop =
              read_from-within step watched.offset (watched.parser, w.store) content n
                (parser, store) within f in
            subst (λ v. (transcript_of env P v path).offset ≤ length content) it
              (subst (λ file. file.offset ≤ length content) (sym there) stop)
      ]
