-- ===== src/Watcher/Restart.antt =====
-- watcher/watcher.go: the files of a watcher across a restart.
pub mod Parsers
use Prim.Native.String.{◌++◌ as append_text}
use mathlib.Core.Option.{some-injective}
use peek_mcp.Prelude.{
  ℕ, String, true, false, List, [], ◌∷◌, Option, none, some, ◌≡◌, refl, sym, ap, ◌∙◌, arith, inl,
  inr, Bool-cases, Option-cases, str_eq, eq_iff, if◌then◌else◌,
}
use peek_mcp.Prelude.Assoc.{Assoc, lookup, insert, lookup-insert}
use peek_mcp.Prelude.Text.{has_prefix}
use peek_mcp.Session.Turn.{is_filled}
use peek_mcp.Watcher.State.{
  LineParser, FileState, WatchedFile, file_state, state_of, add_state, file_states,
  watched_from_state, add_watched, restore_files,
}

-- What `State` of a parser returns is not empty, and `Restore` loads it into a fresh parser; shown of
-- the parsers of the program in the module below.
abbrev pub Restores : LineParser → Type 0
Restores P =
    (carried : P.Carried) (bytes : List ℕ)
    → P.state carried ≡ some bytes
    → (is_filled bytes ≡ true) × (P.restore bytes ≡ some carried)

-- All files are below the directory of the watcher.
abbrev pub Below {ℓ} : {V : Type ℓ} → String → Assoc V → Type 0
Below dir [] = Unit
Below dir ((path, v) ∷ files) = (has_prefix path (append_text dir "/") ≡ true) × Below dir files

module _ (P : LineParser) (restores : Restores P) where
  state_of-restored :
      (offset : ℕ) (parser : Option P.Carried) (state : FileState)
      → state_of P offset parser ≡ some state
      → watched_from_state P state ≡ some (record { offset = offset; parser = parser })
  unfolding watched_from_state
  state_of-restored offset none state e = ap (watched_from_state_or none) (sym e) ∙ refl
    where
      watched_from_state_or : Option (WatchedFile P) → Option FileState → Option (WatchedFile P)
      watched_from_state_or o none = o
      watched_from_state_or o (some given) = watched_from_state P given
  state_of-restored offset (some carried) state e = elim (Option-cases (P.state carried)) [
    | inl f ↦ absurd (ground (arith, sym (ap (with_offset offset) f) ∙ e))
    | inr (bytes, f) ↦
        let (filled, back) = restores carried bytes f in
        let it : record { offset = offset; parser = bytes } ≡ state =
          some-injective (record { offset = offset; parser = bytes }) state
            (sym (ap (with_offset offset) f) ∙ e) in
        ap (watched_from_state P) (sym it) ∙ rw (filled, back) refl
  ]
    where
      with_offset : ℕ → Option (List ℕ) → Option FileState
      with_offset n none = none
      with_offset n (some bytes) = some (record { offset = n; parser = bytes })

  -- The restored files, with a file at a path.
  record With (path : String) (watched : WatchedFile P) (files : Assoc (WatchedFile P))
      (o : Option (Assoc (WatchedFile P))) : Type 0 where
    result : Assoc (WatchedFile P)
    restored : o ≡ some result
    reads :
        (q : String) → lookup q result ≡ (if str_eq path q then some watched else lookup q files)

  add_watched-With :
      (path : String) (watched : WatchedFile P) (files : Assoc (WatchedFile P))
      → With path watched files (add_watched P path (some watched) (some files))
  add_watched-With path watched files = record {
    result = insert path watched files;
    restored = refl;
    reads = λ q. lookup-insert path q watched files;
  }

  add_watched-parts :
      (path : String) (w : Option (WatchedFile P)) (rest : Option (Assoc (WatchedFile P)))
      (files : Assoc (WatchedFile P))
      → add_watched P path w rest ≡ some files
      → (o : WatchedFile P) × (r : Assoc (WatchedFile P)) × (w ≡ some o)
        × (rest ≡ some r)
        × (insert path o r ≡ files)
  add_watched-parts path none rest files e = absurd (ground arith)
  add_watched-parts path (some o) none files e = absurd (ground arith)
  add_watched-parts path (some o) (some r) files e =
      (o, r, refl, refl, some-injective (insert path o r) files e)

  -- The state of one file more is one file more.
  restore_files-insert :
      (dir path : String) (state : FileState) (watched : WatchedFile P) (states : Assoc FileState)
      (files : Assoc (WatchedFile P))
      → has_prefix path (append_text dir "/") ≡ true
      → watched_from_state P state ≡ some watched
      → restore_files P dir [] states ≡ some files
      → With path watched files (restore_files P dir [] (insert path state states))
  unfolding insert restore_files
  restore_files-insert dir path state watched [] files below back e =
      let none_yet : [] ≡ files = some-injective [] files e in
      let ran : restore_files P dir [] ((path, state) ∷ []) ≡ some (insert path watched []) =
        rw (below, back, restore_files) refl in
      record {
        result = insert path watched [];
        restored = ran;
        reads = λ q.
            lookup-insert path q watched []
            ∙ ap (λ f. if str_eq path q then some watched else lookup q f) none_yet;
      }
  restore_files-insert dir path state watched ((j, other) ∷ states) files below back e =
      elim (Bool-cases (str_eq j path)) [
        | inl same ↦
            let name : j ≡ path = (eq_iff j path).0 same in
            let below_j : has_prefix j (append_text dir "/") ≡ true = rw name below in
            let added = sym (restored_next j other states below_j) ∙ e in
            let (o, r, was, rest, put) =
              add_watched-parts j (watched_from_state P other) (restore_files P dir [] states) files
                added in
            rw same (record {
              result = insert path watched r;
              restored = rw (below, back, restore_files, rest) refl;
              reads = λ q.
                  lookup-insert path q watched r
                  ∙ ground (arith, put, name, lookup-insert j q o r, ap (λ f. lookup q f) put);
            })
        | inr apart ↦ elim (Bool-cases (has_prefix j (append_text dir "/"))) [
          | inl below_j ↦
              let added = sym (restored_next j other states below_j) ∙ e in
              let (o, r, was, rest, put) =
                add_watched-parts j (watched_from_state P other) (restore_files P dir [] states)
                  files added in
              let grown = restore_files-insert dir path state watched states r below back rest in
              rw apart (record {
                result = insert j o grown.result;
                restored = rw (below_j, was, restore_files, grown.restored) refl;
                reads = λ q. ground (
                  arith,
                  apart,
                  lookup-insert j q o grown.result,
                  grown.reads q,
                  lookup-insert j q o r,
                  ap (λ f. lookup q f) put,
                  eq_iff j q,
                  eq_iff path q,
                  eq_iff j path,
                );
              })
          | inr elsewhere ↦
              let skips = skipped j other states elsewhere in
              let grown =
                restore_files-insert dir path state watched states files below back
                  (sym skips ∙ e) in
              rw apart (record {
                result = grown.result;
                restored = skipped j other (insert path state states) elsewhere ∙ grown.restored;
                reads = grown.reads;
              })
        ]
      ]
    where
      restored_next :
          (q : String) (found : FileState) (rest : Assoc FileState)
          → has_prefix q (append_text dir "/") ≡ true
          → restore_files P dir [] ((q, found) ∷ rest)
            ≡ add_watched P q (watched_from_state P found) (restore_files P dir [] rest)
      restored_next q found rest b = rw b refl

      skipped :
          (q : String) (found : FileState) (rest : Assoc FileState)
          → has_prefix q (append_text dir "/") ≡ false
          → restore_files P dir [] ((q, found) ∷ rest) ≡ restore_files P dir [] rest
      skipped q found rest b = rw b refl

  add_state-parts :
      (path : String) (w : Option FileState) (rest : Option (Assoc FileState))
      (states : Assoc FileState)
      → add_state P path w rest ≡ some states
      → (o : FileState) × (r : Assoc FileState) × (w ≡ some o)
        × (rest ≡ some r)
        × (insert path o r ≡ states)
  add_state-parts path none rest states e = absurd (ground arith)
  add_state-parts path (some o) none states e = absurd (ground arith)
  add_state-parts path (some o) (some r) states e =
      (o, r, refl, refl, some-injective (insert path o r) states e)

  -- The files of a watcher, for any parser that restores what it saved.
  pub restore_files-back :
      (dir : String) (files : Assoc (WatchedFile P)) (states : Assoc FileState)
      → Below dir files
      → file_states P files ≡ some states
      → (files' : Assoc (WatchedFile P)) × (restore_files P dir [] states ≡ some files')
        × ((path : String) → lookup path files' ≡ lookup path files)
  unfolding file_states restore_files lookup
  restore_files-back dir [] states below e =
      let none_yet = some-injective [] states e in
      ([], rw (sym none_yet, restore_files) refl, λ path. refl)
  restore_files-back dir ((path, watched) ∷ files) states (below, rest) e =
      let (o, r, was, saved, put) =
        add_state-parts path (file_state P watched) (file_states P files) states e in
      let (files', back, reads) = restore_files-back dir files r rest saved in
      let grown =
        restore_files-insert dir path o watched r files' below
          (state_of-restored watched.offset watched.parser o was) back in
      (
        grown.result,
        rw⁻¹ put grown.restored,
        λ q. grown.reads q ∙ ap (λ v. if str_eq path q then some watched else v) (reads q),
      )
