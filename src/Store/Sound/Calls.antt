-- ===== src/Store/Sound/Calls.antt =====
-- session/store.go: `AddTurnBySessionId` on a sound store.

use mathlib.Core.Path.{subst}
use mathlib.Core.Option.{some-injective}
use peek_mcp.Prelude.{
  ℕ, ◌≡◌, refl, sym, ap, ◌∙◌, String, false, ◌||◌, Option, none, some, arith, str_eq, is_empty,
  is_some, Bool-cases, Option-cases, inl, inr, if◌then◌else◌,
}
use peek_mcp.Prelude.Assoc.{lookup}
use peek_mcp.Events.{event_added}
use peek_mcp.Session.Turn
use peek_mcp.Session.Turn.{is_filled, meta_of_validate}
use peek_mcp.Session.Usage.{Usage}
use peek_mcp.Session.State.{Session}
use peek_mcp.Session.Touches.{add_file_touches}
use peek_mcp.Session.Sound.Subagents.{add_subagent_turn-IsSound}
use peek_mcp.Store.Env.{Env}
use peek_mcp.Store.State.{Store, publish}
use peek_mcp.Store.Actors.{append_events}
use peek_mcp.Store.AddTurn.{put_back, add_subagent_turn_by_session_id, add_turn_by_session_id}
use peek_mcp.Store.Sound.{StoreAccounts, StoreSound, Ends, rebase, reported}
use peek_mcp.Session.Sound.{IsSound}
use peek_mcp.Store.Sound.Sessions.{
  KeepsOthers, rebase-same, put_back-StoreAccounts, put_back-KeepsOthers, lookup-put_back,
  base_before, get_or_create-works,
}
use peek_mcp.Store.Sound.Steps.{Sound-SameParts, append_events-Sound}
use peek_mcp.Store.Sound.Keeps.{KeepsSessions-refl, publish-KeepsSessions}
use peek_mcp.Store.Sound.Signals.{IsFine, KeepsSessions-if}
use peek_mcp.Store.Sound.AddTurn.{UsageIsWords, add_to_session-Works}

module _ (env : Env) where
  -- The total of the session of an id, if there is one, ends as its turn says.
  abbrev pub Accounts :
      (String → Usage) → Usage → Store env.Files → String → Turn.Turn → Store env.Files → Type 0
  Accounts bases base s id turn s' =
      (session : Session)
      → lookup id s'.sessions ≡ some session
      → Ends (reported turn) (base_before env bases s id) base session

  -- The id has a session: only a turn of a sub-agent makes none.
  abbrev pub IsPresent : Store env.Files → String → Turn.Turn → Store env.Files → Type 0
  IsPresent s id turn s' =
      is_some (lookup id s'.sessions)
      ≡ (is_some (lookup id s.sessions) || is_empty turn.subagent_id)

  -- What a call of AddTurnBySessionId does to a store.
  record Added (bases : String → Usage) (s : Store env.Files) (id : String) (turn : Turn.Turn)
      (o : Option (Store env.Files)) : Type 0 where
    after : Store env.Files
    base : Usage
    ran : o ≡ some after
    sound : StoreAccounts (rebase bases id base) after
    accounts : Accounts bases base s id turn after
    present : IsPresent s id turn after
    others : KeepsOthers id s after

  Ends-put_back :
      (bases : String → Usage) (base : Usage) (s : Store env.Files) (id : String) (turn : Turn.Turn)
      (r : Store env.Files × Session)
      → Ends (reported turn) (base_before env bases s id) base r.1
      → Accounts bases base s id turn (put_back env id r)
  Ends-put_back bases base s id turn r ends session e =
      subst (Ends (reported turn) (base_before env bases s id) base)
        (some-injective r.1 session (sym (lookup-put_back env id r) ∙ e)) ends

  reported-subagent : (turn : Turn.Turn) → is_empty turn.subagent_id ≡ false → reported turn ≡ none
  unfolding reported
  reported-subagent turn e = rw e refl

  add_subagent_turn-Added :
      (bases : String → Usage) (now : ℕ) (s : Store env.Files) (id : String) (turn : Turn.Turn)
      → is_empty turn.subagent_id ≡ false
      → StoreAccounts bases s
      → Added bases s id turn (add_subagent_turn_by_session_id env now s id turn)
  unfolding add_subagent_turn_by_session_id
  add_subagent_turn-Added bases now s id turn sub h = elim (Option-cases (lookup id s.sessions)) [
    | inl e ↦ record {
      after = s;
      base = bases id;
      ran = rw (e, add_subagent_turn_by_session_id) refl;
      sound = record {
        deep = h.deep;
        signed = h.signed;
        all = λ q session found.
            subst (λ base. IsSound base session) (sym (rebase-same bases id q))
              (h.all q session found);
      };
      accounts = λ session found. absurd (ground (arith, e, found));
      present = rw (e, sub) refl;
      others = λ other apart. refl;
    }
    | inr (session, e) ↦
        let evented = append_events session turn.events in
        let touched = record evented {
          touched_files = add_file_touches evented.touched_files turn.file_touches;
        } in
        let published = publish now event_added id session.agent s in
        let k =
          Sound-SameParts evented touched (ground arith)
            (append_events-Sound session turn.events (h.all id session e)) in
        let (added, ran, sound) = add_subagent_turn-IsSound touched turn k in
        let s' = if is_filled turn.events then published else s in
        let f : IsFine (bases id) s (s', added) = record {
          keeps =
              KeepsSessions-if s (is_filled turn.events) published s
                (publish-KeepsSessions now event_added id session.agent s s (KeepsSessions-refl s))
                (KeepsSessions-refl s);
          sound = sound;
        } in
        record {
          after = put_back env id (s', added);
          base = bases id;
          ran = rw (e, ran, add_subagent_turn_by_session_id) refl;
          sound =
              put_back-StoreAccounts env bases (bases id) s s id (s', added) h refl
                (λ other apart. refl) f;
          accounts =
              Ends-put_back bases (bases id) s id turn (s', added)
                (rw (reported-subagent turn sub, e) refl);
          present = ap is_some (lookup-put_back env id (s', added)) ∙ rw e refl;
          others = put_back-KeepsOthers env (bases id) s id (s', added) f;
        }
  ]

  adds :
      (bases : String → Usage) (now : ℕ) (s : Store env.Files) (id agent : String)
      (turn : Turn.Turn)
      → Turn.validate (some turn) ≡ none
      → UsageIsWords turn.usage
      → StoreAccounts bases s
      → Added bases s id turn (add_turn_by_session_id env now s id agent turn)
  unfolding add_turn_by_session_id
  adds bases now s id agent turn valid w h = elim (Bool-cases (is_empty turn.subagent_id)) [
    | inr e ↦ rw e (add_subagent_turn-Added bases now s id turn e h)
    | inl e ↦
        let (meta, m) = meta_of_validate turn valid in
        let (r, made, k, depth, others) = get_or_create-works env bases now s id agent h in
        let (r', base, ran, f, ends) =
          add_to_session-Works env now id agent turn meta m w r.0 r.1 e k in
        rw e (record {
          after = put_back env id r';
          base = base;
          ran = rw (made, ran) refl;
          sound = put_back-StoreAccounts env bases base s r.0 id r' h depth others f;
          accounts = Ends-put_back bases base s id turn r' ends;
          present = ap is_some (lookup-put_back env id r') ∙ ground (arith, e);
          others = λ other apart.
              put_back-KeepsOthers env base r.0 id r' f other apart ∙ others other apart;
        })
  ]

  -- If the total of every session of a store is the base of the session and the sum of its
  -- ledger, the rings are valid, of a positive depth, and the skill windows in place,
  -- AddTurnBySessionId takes in every turn that passes Validate and whose usage has 64-bit
  -- counts, without a panic on any branch. All this holds again, with the bases as they were but
  -- for the session of the id: a usage that the turn reports is its total, and otherwise its
  -- base is the old one, zero for a new session. The id has a session then, unless it had none
  -- and the turn is a sub-agent's.
  pub add_turn_by_session_id-StoreAccounts :
      (bases : String → Usage) (now : ℕ) (s : Store env.Files) (id agent : String)
      (turn : Turn.Turn)
      → Turn.validate (some turn) ≡ none
      → UsageIsWords turn.usage
      → StoreAccounts bases s
      → (s' : Store env.Files) × (base : Usage) × (add_turn_by_session_id env now s id agent turn
          ≡ some s')
        × StoreAccounts (rebase bases id base) s'
        × Accounts bases base s id turn s'
        × IsPresent s id turn s'
  add_turn_by_session_id-StoreAccounts bases now s id agent turn valid w h =
      let a = adds bases now s id agent turn valid w h in
      (a.after, a.base, a.ran, a.sound, a.accounts, a.present)

  pub add_turn_by_session_id-StoreSound :
      (now : ℕ) (s : Store env.Files) (id agent : String) (turn : Turn.Turn)
      → Turn.validate (some turn) ≡ none
      → UsageIsWords turn.usage
      → StoreSound s
      → (s' : Store env.Files) × (add_turn_by_session_id env now s id agent turn ≡ some s')
        × StoreSound s'
  add_turn_by_session_id-StoreSound now s id agent turn valid w (bases, h) =
      let a = adds bases now s id agent turn valid w h in
      (a.after, a.ran, (rebase bases id a.base, a.sound))

  -- On a sound store, a turn that passes its validation, with 64-bit counts in its usage, leaves
  -- every session but the one of its id as it is.
  pub add_turn_by_session_id-others :
      (now : ℕ) (s : Store env.Files) (id agent : String) (turn : Turn.Turn) (other : String)
      → Turn.validate (some turn) ≡ none
      → UsageIsWords turn.usage
      → StoreSound s
      → str_eq id other ≡ false
      → (s' : Store env.Files) × (add_turn_by_session_id env now s id agent turn ≡ some s')
        × (lookup other s'.sessions ≡ lookup other s.sessions)
  add_turn_by_session_id-others now s id agent turn other valid w (bases, h) apart =
      let a = adds bases now s id agent turn valid w h in (a.after, a.ran, a.others other apart)
