-- ===== src/Tests/Restarting.antt =====
-- A watcher that is restarted.
use mathlib.Core.Option.{some-injective}
use mathlib.Core.Option
use mathlib.Core.List.{List-discrete}
use mathlib.Core.HLevel.{×_discrete}
use peek_mcp.Prelude.{
  ℕ, ◌≡◌, refl, sym, ap, ◌∙◌, String, true, List, [], ◌∷◌, Option, none, some, arith, str_eq,
  eq_iff, Bool-cases, inl, inr,
}
use peek_mcp.Prelude.Assoc.{Assoc, lookup, insert}
use peek_mcp.Prelude.Text.{has_prefix}
use peek_mcp.Prelude.Gob.{Codec}
use peek_mcp.Session.Turn.{is_filled}
use peek_mcp.Codex.State.{EscalatedCall, Parser}
use peek_mcp.Codex.Serial.{ParserState, state}
use peek_mcp.Watcher.State.{FileState, WatchedFile, file_state, file_states, restore_files}
use peek_mcp.Watcher.Restart.Parsers.{Program, codex, parser_of, IsGob, restore_files-file_states}
use peek_mcp.Tests.Watching.{decoder}

String-discrete : Discrete String
String-discrete a b = elim (Bool-cases (str_eq a b)) [
  | inl e ↦ yes ((eq_iff a b).0 e)
  | inr e ↦ no (λ p. absurd (ground (arith, (eq_iff a b).1 p, e)))
]

EscalatedCall-discrete : Discrete EscalatedCall
EscalatedCall-discrete = hlevel String-discrete

pending-discrete : Discrete (Option (Assoc EscalatedCall))
pending-discrete =
    Option.discrete (List-discrete (×_discrete String-discrete EscalatedCall-discrete))

ParserState-discrete : Discrete ParserState
ParserState-discrete = hlevel (String-discrete, pending-discrete)

-- A parser that waits for the verdict on a call.
abbrev waiting : Parser
waiting = record {
  model = "gpt-5";
  pending_escalated = ("c1", record { cmd = "rm a"; justification = "old" }) ∷ [];
  session_id = "s1";
  subagent_actor = "";
}

abbrev waiting_state : ParserState
waiting_state = record {
  model = "gpt-5";
  pending_escalated = some waiting.pending_escalated;
  session_id = "s1";
  subagent_actor = "";
}

encode_decided : {a : ParserState} → Dec (a ≡ waiting_state) → Option (List ℕ)
encode_decided (yes p) = some (7 ∷ [])
encode_decided (no p) = none

-- A codec of that one state, by one byte; it fails at every other.
abbrev gob : Codec (List ℕ) ParserState
gob = record {
  encode = λ a. encode_decided (ParserState-discrete a waiting_state);
  decode = λ bytes. elim bytes [ [] ↦ none | b ∷ rest ↦ some waiting_state ];
}

gob-decided :
    (a : ParserState) (bytes : List ℕ) (d : Dec (a ≡ waiting_state))
    → encode_decided d ≡ some bytes
    → (gob.decode bytes ≡ some a) × (is_filled bytes ≡ true)
unfolding encode_decided
gob-decided a bytes (yes p) e =
    let it : 7 ∷ [] ≡ bytes = some-injective (7 ∷ []) bytes e in
    (ap gob.decode (sym it) ∙ ap some (sym p), ap is_filled (sym it))
gob-decided a bytes (no p) e = absurd (ground (arith, e))

gob-IsGob : IsGob gob
gob-IsGob = (
  λ a bytes e. (gob-decided a bytes (ParserState-discrete a waiting_state) e).0,
  λ a bytes e. (gob-decided a bytes (ParserState-discrete a waiting_state) e).1,
)

abbrev program : Program
program = codex decoder gob

abbrev two_files : Assoc (WatchedFile (parser_of program))
two_files =
    ("/d/a.jsonl", record { offset = 40; parser = some waiting })
    ∷ ("/d/b.meta.json", record { offset = 9; parser = none })
    ∷ []

abbrev two_states : Assoc FileState
two_states =
    ("/d/b.meta.json", record { offset = 9; parser = [] })
    ∷ ("/d/a.jsonl", record { offset = 40; parser = 7 ∷ [] })
    ∷ []

gob-waiting : (d : Dec (waiting_state ≡ waiting_state)) → encode_decided d ≡ some (7 ∷ [])
unfolding encode_decided
gob-waiting (yes p) = refl
gob-waiting (no p) = absurd (p refl)

two_files-states : file_states (parser_of program) two_files ≡ some two_states
unfolding file_states file_state insert state
two_files-states = rw (gob-waiting (ParserState-discrete waiting_state waiting_state)) refl

in_d : (has_prefix "/d/a.jsonl" "/d/" ≡ true) × (has_prefix "/d/b.meta.json" "/d/" ≡ true)
unfolding has_prefix
in_d = (refl, refl)

restore_files-file_states_example :
    (files : Assoc (WatchedFile (parser_of program))) × (restore_files
        (parser_of program)
        "/d"
        []
        two_states
      ≡ some files)
    × ((path : String) → lookup path files ≡ lookup path two_files)
restore_files-file_states_example =
    restore_files-file_states program gob-IsGob "/d" two_files two_states (in_d.0, (in_d.1, tt))
      two_files-states
