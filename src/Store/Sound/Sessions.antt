-- ===== src/Store/Sound/Sessions.antt =====
-- session/store.go: the sessions of a sound store, the one that a call makes or finds included.

use mathlib.Core.Path.{subst}
use mathlib.Core.Option.{some-injective}
use peek_mcp.Prelude.{
  ℕ, ◌<◌, ◌≡◌, refl, sym, ap, ◌∙◌, String, false, not, [], some, arith, str_eq, eq_iff, eq_refl,
  is_some, Bool-cases, Option-cases, inl, inr, if◌then◌else◌,
}
use peek_mcp.Prelude.Assoc.{Assoc, lookup, insert, lookup-insert}
use peek_mcp.Events.{session_created}
use peek_mcp.Session.TurnBuffer
use peek_mcp.Session.TurnBuffer.{TurnBuffer}
use peek_mcp.Session.TurnBuffer.Window.{IsValid}
use peek_mcp.Session.Usage.{Usage, zero_usage}
use peek_mcp.Session.State.{Session}
use peek_mcp.Store.Env.{Env}
use peek_mcp.Store.State.{Store, publish}
use peek_mcp.Store.Plan.{hydrate_plan_state}
use peek_mcp.Store.AddTurn.{
  new_session, hydrate_base, hydrate_snapshot, hydrate_from_state, get_or_create, put_back,
}
use peek_mcp.Store.Fresh.{new_session-IsSound}
use peek_mcp.Store.Sound.{AllSound, StoreAccounts, rebase}
use peek_mcp.Session.Sound.{IsSound}
use peek_mcp.Store.Sound.Steps.{Sound-SameParts, Sound-if, hydrate_plan_state-Sound}
use peek_mcp.Store.Sound.Signals.{IsFine}

insert-other :
    (id other : String) (session : Session) (m : Assoc Session)
    → str_eq id other ≡ false
    → lookup other (insert id session m) ≡ lookup other m
insert-other id other session m apart = ground (arith, lookup-insert id other session m, apart)

AllSound-insert :
    (bases : String → Usage) (base : Usage) (id : String) (session : Session) (m n : Assoc Session)
    → IsSound base session
    → ((other : String) → str_eq id other ≡ false → lookup other m ≡ lookup other n)
    → AllSound bases n
    → AllSound (rebase bases id base) (insert id session m)
AllSound-insert bases base id session m n k others h q found e = elim (Bool-cases (str_eq id q)) [
  | inl f ↦
      let it : session ≡ found = some-injective session found (
        sym (lookup-insert id q session m ∙ ap (λ b. if b then some session else lookup q m) f)
        ∙ e) in
      rw f (subst (IsSound base) it k)
  | inr f ↦ rw f (h q found (sym (insert-other id q session m f ∙ others q f) ∙ e))
]

pub rebase-same : (bases : String → Usage) (id q : String) → rebase bases id (bases id) q ≡ bases q
rebase-same bases id q = elim (Bool-cases (str_eq id q)) [
  | inl e ↦ rw e (ap bases ((eq_iff id q).0 e))
  | inr e ↦ rw e refl
]

-- A ring can be made with the depth of the store.
new_ring-IsValid :
    (depth : ℕ)
    → 0 < depth
    → depth < 9223372036854775808
    → (ring : TurnBuffer) × (TurnBuffer.new depth ≡ some ring) × IsValid ring
unfolding TurnBuffer.new
new_ring-IsValid depth deep signed = (
  record { capacity = depth; items = []; pushed = 0; pushed_tool_only = 0 },
  ground (arith, deep, signed),
  record { positive = deep; signed = signed; within = omega arith },
)

-- Every other session of the store stays as it is.
abbrev pub KeepsOthers : {Files : Type 0} → String → Store Files → Store Files → Type 0
KeepsOthers id s s' =
    (other : String) → str_eq id other ≡ false → lookup other s'.sessions ≡ lookup other s.sessions

module _ (env : Env) where
  pub put_back-StoreAccounts :
      (bases : String → Usage) (base : Usage) (s s' : Store env.Files) (id : String)
      (r : Store env.Files × Session)
      → StoreAccounts bases s
      → s'.depth ≡ s.depth
      → KeepsOthers id s s'
      → IsFine base s' r
      → StoreAccounts (rebase bases id base) (put_back env id r)
  put_back-StoreAccounts bases base s s' id r h depth others f = record {
    deep = rw (f.keeps.depth, depth) h.deep;
    signed = rw (f.keeps.depth, depth) h.signed;
    all =
        AllSound-insert bases base id r.1 r.0.sessions s.sessions f.sound
          (λ other apart. ap (lookup other) f.keeps.sessions ∙ others other apart) h.all;
  }

  pub put_back-KeepsOthers :
      (base : Usage) (s : Store env.Files) (id : String) (r : Store env.Files × Session)
      → IsFine base s r
      → KeepsOthers id s (put_back env id r)
  put_back-KeepsOthers base s id r f other apart =
      insert-other id other r.1 r.0.sessions apart ∙ ap (lookup other) f.keeps.sessions

  pub lookup-put_back :
      (id : String) (r : Store env.Files × Session)
      → lookup id (put_back env id r).sessions ≡ some r.1
  lookup-put_back id r =
      lookup-insert id id r.1 r.0.sessions
      ∙ ap (λ b. if b then some r.1 else lookup id r.0.sessions) (eq_refl id)

  hydrate_base-Sound :
      {base : Usage} (s : Store env.Files) (session : Session)
      → IsSound base session
      → IsSound base (hydrate_base env s session)
  unfolding hydrate_base
  hydrate_base-Sound s session h =
      Sound-SameParts session (hydrate_base env s session) (ground arith) h

  hydrate_snapshot-Sound :
      {base : Usage} (s : Store env.Files) (session : Session)
      → IsSound base session
      → IsSound base (hydrate_snapshot env s session)
  unfolding hydrate_snapshot
  hydrate_snapshot-Sound s session h =
      Sound-SameParts session (hydrate_snapshot env s session) (ground arith) h

  hydrate_from_state-Sound :
      {base : Usage} (s : Store env.Files) (session : Session)
      → IsSound base session
      → IsSound base (hydrate_from_state env s session)
  unfolding hydrate_from_state
  hydrate_from_state-Sound s session h =
      let based = hydrate_base env s session in
      let shot = hydrate_snapshot env s based in
      Sound-if (not s.has_state_dir) session (hydrate_plan_state env s shot) h (
        hydrate_plan_state-Sound env s shot
          (hydrate_snapshot-Sound s based (hydrate_base-Sound s session h)))

  -- The base of the session of an id: a new session has none.
  abbrev pub base_before : (String → Usage) → Store env.Files → String → Usage
  base_before bases s id = if is_some (lookup id s.sessions) then bases id else zero_usage

  pub get_or_create-works :
      (bases : String → Usage) (now : ℕ) (s : Store env.Files) (id agent : String)
      → StoreAccounts bases s
      → (r : Store env.Files × Session) × (get_or_create env now s id agent ≡ some r)
        × IsSound (base_before bases s id) r.1
        × (r.0.depth ≡ s.depth)
        × KeepsOthers id s r.0
  unfolding get_or_create publish
  get_or_create-works bases now s id agent h = elim (Option-cases (lookup id s.sessions)) [
    | inr (session, e) ↦ (
      (s, session),
      rw (e, get_or_create) refl,
      rw e (h.all id session e),
      refl,
      λ other apart. refl,
    )
    | inl e ↦
        let (ring, made, v) = new_ring-IsValid s.depth h.deep h.signed in
        let session = hydrate_from_state env s (new_session id agent ring) in
        (
          (
            publish now session_created id agent
                (record s { sessions = insert id session s.sessions }),
            session,
          ),
          rw (e, made, get_or_create) refl,
          rw e (
              hydrate_from_state-Sound s (new_session id agent ring)
                (new_session-IsSound id agent ring v)),
          refl,
          λ other apart. insert-other id other session s.sessions apart,
        )
  ]
