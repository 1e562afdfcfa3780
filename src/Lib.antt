-- ===== src/Lib.antt =====
-- peek-mcp watches the transcripts that coding agents write, and serves the sessions in them. The
-- parsers turn a line of a transcript into a turn; the store files the turn in its session; a broker
-- tells the subscribers of the control server that something changed.
--
-- The files and the code they model:
--   Events            events/broker.go: Type, Event, Broker, Subscribe, Publish
--   Events/Delivery   what the subscribers of a broker get
--   Events/Subscribed     who is subscribed after a sequence of calls
--   Session/Usage     session/usage.go: Usage, Add, Sub, Validate; Usage/Laws is its algebra
--   Session/Event     session/event.go: events, payloads, counters
--   Session/EventBuffer   session/event_buffer.go: Push, Validate, GobEncode, GobDecode;
--                     EventBuffer/Budget compares the buffer with its two budgets
--   Session/Meta      session/meta.go and session/role.go
--   Session/Turn      session/turn.go: Turn, its signals, Validate
--   Session/TurnBuffer    session/turn_buffer.go; TurnBuffer/Window compares the ring with a window
--                     on its history
--   Session/State     session/session.go and session/plan_revision.go: the types and constants
--   Session/Skills    session/session.go: AddEvent, denials, skill windows
--   Session/Touches   session/session.go: addFileTouch
--   Session/Requests  session/session.go: applyRequestUsage; Requests/Targets, Requests/Charges
--                     and Requests/Ledger compare the totals with the sum of the requests
--   Session/Turns     session/session.go: appendTurn, applyToolResults, findToolCall, lastTurns;
--                     Turns/Merge is about chunks, Turns/Results about tool results
--   Session/AddTurn   session/session.go: AddTurn
--   Session/Subagents session/session.go: AddSubagentTurn
--   Session/Queries   session/session.go: totals, turns, titles, phases of a plan
--   Session/Sound     the invariant of a session; a child for each kind of step; Sound/Reports is
--                     about what AddTurn enters in the ledger
--   Session/Snapshot  session/store_snapshot.go: the form of a session in a snapshot; Snapshot/Restored
--                     is about its way back
--   Session/SnapshotCache session/snapshot_cache.go; SnapshotCache/Recency is about its order
--   Store/Env         what the store is given: the methods of state/dir.go on the file system, the
--                     diff of go-difflib, unicode.ToLower
--   Store/State       session/store.go: Store, NewStore, ResolveAgent, Reset, MarkReady
--   Store/Actors      session/store.go: appendEvent, resolveSubagentActor
--   Store/Plan        session/store.go: plan contents, revisions, versions on disk; Plan/Content and
--                     Plan/Bound are about what is kept of a plan
--   Store/Diff        session/store.go: diffs, snapshots, bases
--   Store/Find        session/store.go: GetById, GetByTitle, Last, List; Find/Order is about
--                     their order
--   Store/AddTurn     session/store.go: AddTurnBySessionId, addSubagentTurn, getOrCreate, deriveTitle
--   Store/Sound       the invariant of the store: Sound/Steps and Sound/Keeps are about plans and
--                     events, Sound/Signals and Sound/AddTurn about the parts of
--                     AddTurnBySessionId, Sound/Sessions about the session that it makes or finds,
--                     Sound/Calls about the whole call
--   Store/Snapshot    session/store.go: WriteSnapshot, Restore; Snapshot/Restored is about a restart
--   Store/Fresh       the invariant of a session that the store has just made
--   Claude/Entry      claude/entry.go, content.go, message.go, usage.go, attachment.go
--   Claude/Decoder    what the parser is given: the decoding of JSON, paths, a tool's saved output
--   Claude/Content    claude/parser.go: blocks, texts, tool calls and results, file touches
--   Claude/Events     claude/parser.go: the events of an entry
--   Claude/State      claude/parser.go: the parser, its pending tool uses and permission mode
--   Claude/Serial     claude/parser.go: State and Restore
--   Claude/Parser     claude/parser.go: ParseLine and its handlers; Claude/Fine is about what every
--                     line keeps, Claude/Uses about a tool use and its result
--   Codex/Entry       codex/entry.go, content.go, event.go, response_item.go, session_meta.go,
--                     turn_context.go, index_entry.go
--   Codex/Decoder     the decoding of JSON; codex/session_meta.go: UnmarshalJSON
--   Codex/Plan        codex/parser.go: extractProposedPlan; Plan/Last is about the plan it finds
--   Codex/State       codex/parser.go: the parser, extractText, convertUsage
--   Codex/Serial      codex/parser.go: State and Restore
--   Codex/Parser      codex/parser.go: ParseLine and its handlers; Codex/Fine is about what every
--                     line keeps, Codex/Orphans about lines before the metadata
--   Watcher/Lines     watcher/watcher.go: the loop over the complete lines of a file; Lines/Scan and
--                     Lines/Resume are about a file that grows, Lines/Steps about what the loop keeps
--   Watcher/Roots     watcher/watcher.go: subagentsRootDir and the tests on paths
--   Watcher/State     watcher/watcher.go and parser.go: Watcher, FileStates, RestoreFiles
--   Watcher/Disk      what the reads of a watcher find
--   Watcher/Reader    watcher/watcher.go: readNewLines
--   Watcher/Subagents watcher/watcher.go: readJournal, readSubagentMeta
--   Watcher/Batch     watcher/watcher.go: eventBatch, processBatch
--   Watcher/Parsers   the two parsers behind the interface of watcher/parser.go
--   Watcher/Sound     a sound watcher and the reading of a transcript; Watcher/Dirty is about a whole
--                     burst, Watcher/Growth about a transcript that grows, Watcher/Restart about
--                     the files across a restart, Restart/Parsers with the parsers of the program
--   Pricing           pricing/pricing.go: the table and Lookup; Pricing/Longest is about the order of
--                     the table
--   Prelude           numbers, lists, 64-bit words, maps, the text and path functions of Go, the
--                     codecs of encoding/gob
--   Tests             concrete data, and the theorems applied to them
--
-- How the code is read: a Go int is its 64-bit pattern, a natural number below 2 ^ 64, and its sum
-- and difference wrap around; a time is in nanoseconds since the zero time; a map is an association
-- list whose order stands for the order of an iteration; a nil pointer is none. A call gives the
-- state it leaves; where Go panics it gives none. A pointer to a skill stat or to a usage total is
-- the place it points to: session/session.go appends skill stats and never removes a subagent, so
-- a place always names the same object. All loops are structural, but for the search for
-- the root of a sub-agent's file, whose fuel is the length of the path and two more: each step
-- shortens the path, or is the last but one. The bytes of a file are numbers.
--
-- The JSON that encoding/json decodes is a parameter of the parsers: a decoder gives the struct, or
-- none for an error. The encoder and the decoder of encoding/gob are a parameter of what saves
-- itself, the buffers of a session and the parsers: the bytes are theirs, while the form that is
-- encoded and what is made of it after the decoding are the code's. Of a session in a snapshot
-- encoding/gob carries the exported fields, and has the buffers encode and decode themselves. The
-- paths of files are clean, as the walk of a directory and its notices give them. The clock stands
-- still during one call of the watcher.
--
-- Not modelled: the mutexes (each call is one step), the log, the bytes of a snapshot,
-- the walk of a directory and its watches, the watchers of diffs, plans
-- and the index of Codex, claude/memory.go, the cost of pricing/pricing.go (a float), the tools, the
-- control server, telemetry and the commands. Of state/dir.go only the records and the truncation
-- are modelled.
pub mod Prelude
pub mod Events
pub mod Session
pub mod Claude
pub mod Codex
pub mod Watcher
pub mod Pricing
pub mod Store
pub mod Tests
