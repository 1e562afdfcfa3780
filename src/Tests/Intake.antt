-- ===== src/Tests/Intake.antt =====
-- A turn that enters a store.
use peek_mcp.Prelude.{
  ◌≡◌, refl, sym, ap, ◌∙◌, String, true, [], ◌∷◌, none, some, arith, str_eq, Bool-cases, inl, inr,
  if◌then◌else◌,
}
use peek_mcp.Prelude.Assoc.{lookup}
use peek_mcp.Events.{new_broker}
use peek_mcp.Session.Turn
use mathlib.Core.Path.{subst}
use mathlib.Core.Option.{some-injective}
use peek_mcp.Session.Usage.{Usage, zero_usage}
use peek_mcp.Session.Sound.{IsSound}
use peek_mcp.Session.Usage.Laws.{IsWords}
use peek_mcp.Session.State.{Session}
use peek_mcp.Store.State.{Store, new_store}
use peek_mcp.Store.AddTurn.{new_session, add_turn_by_session_id}
use peek_mcp.Store.Fresh.{new_session-IsSound}
use peek_mcp.Store.Sound.{StoreAccounts, StoreSound, rebase}
use peek_mcp.Store.Sound.Calls.{
  Accounts, IsPresent, add_turn_by_session_id-StoreAccounts, add_turn_by_session_id-others,
}
use peek_mcp.Tests.Data.{sample_usage, chunk, empty_ring, env}

abbrev other_session : Session
other_session = new_session "s2" "codex" empty_ring

abbrev pub store : Store String
store = record (new_store "plan A" true 3 2 new_broker ("claude" ∷ "codex" ∷ [])) {
  sessions = ("s2", other_session) ∷ [];
}

abbrev no_bases : String → Usage
no_bases id = zero_usage

store-StoreAccounts : StoreAccounts no_bases store
unfolding new_store lookup
store-StoreAccounts = record {
  deep = omega arith;
  signed = omega arith;
  all = λ id session found. elim (Bool-cases (str_eq "s2" id)) [
    | inl e ↦
        let same : some other_session ≡ some session =
          ap (λ b. if b then some other_session else none) (sym e) ∙ found in
        subst (IsSound zero_usage) (some-injective other_session session same) (
          new_session-IsSound "s2" "codex" empty_ring
            (record { positive = omega arith; signed = omega arith; within = omega arith }))
    | inr e ↦
        absurd (ground (arith, ap (λ b. if b then some other_session else none) (sym e) ∙ found))
  ];
}

pub store-Sound : StoreSound store
store-Sound = (no_bases, store-StoreAccounts)

chunk-validate : Turn.validate (some chunk) ≡ none
unfolding Turn.validate
chunk-validate = refl

sample_usage-IsWords : IsWords sample_usage
sample_usage-IsWords = record {
  w1 = omega arith;
  w2 = omega arith;
  w3 = omega arith;
  w4 = omega arith;
  w5 = omega arith;
  w6 = omega arith;
  w7 = omega arith;
  w8 = omega arith;
  w9 = omega arith;
}

add_turn_by_session_id-StoreAccounts_example :
    (s : Store String) × (base : Usage) × (add_turn_by_session_id env 7 store "s1" "claude" chunk
      ≡ some s)
    × StoreAccounts (rebase no_bases "s1" base) s
    × Accounts env no_bases base store "s1" chunk s
    × IsPresent env store "s1" chunk s
add_turn_by_session_id-StoreAccounts_example =
    add_turn_by_session_id-StoreAccounts env no_bases 7 store "s1" "claude" chunk chunk-validate
      sample_usage-IsWords store-StoreAccounts

add_turn_by_session_id-others_example :
    (s : Store String) × (add_turn_by_session_id env 7 store "s1" "claude" chunk ≡ some s)
    × (lookup "s2" s.sessions ≡ lookup "s2" store.sessions)
add_turn_by_session_id-others_example =
    add_turn_by_session_id-others env 7 store "s1" "claude" chunk "s2" chunk-validate
      sample_usage-IsWords store-Sound refl
