-- ===== src/Session/Touches.antt =====
-- session/session.go: the files that a session or a subagent touches.
use peek_mcp.Prelude.{List, [], ◌∷◌, none, some, length, leb, if◌then◌else◌}
use peek_mcp.Prelude.Words.{add64}
use peek_mcp.Prelude.Assoc.{Assoc, lookup, insert}
use peek_mcp.Session.Turn.{FileTouch}
use peek_mcp.Session.State.{Session, FileTouchCounts, max_touched_files}

abbrev pub count_touch : FileTouch → FileTouchCounts → FileTouchCounts
count_touch touch counts =
    if touch.write
    then record counts { writes = add64 counts.writes 1 }
    else record counts { reads = add64 counts.reads 1 }

-- `addFileTouch(files, touch)`; a nil map and an empty one behave alike.
unfoldable pub add_file_touch_to : Assoc FileTouchCounts → FileTouch → Assoc FileTouchCounts
add_file_touch_to files touch = elim (lookup touch.path files) [
  | some counts ↦ insert touch.path (count_touch touch counts) files
  | none ↦
      if leb max_touched_files (length files)
      then files
      else insert touch.path (count_touch touch (record { reads = 0; writes = 0 })) files
]

-- The loop over a turn's touches.
unfoldable pub add_file_touches : Assoc FileTouchCounts → List FileTouch → Assoc FileTouchCounts
unfolding add_file_touch_to
add_file_touches files [] = files
add_file_touches files (touch ∷ touches) = add_file_touches (add_file_touch_to files touch) touches

-- `s.AddFileTouch(touch)`
unfoldable pub add_file_touch : Session → FileTouch → Session
unfolding add_file_touch_to
add_file_touch s touch = record s { touched_files = add_file_touch_to s.touched_files touch }
