-- ===== src/Session/Requests/Ledger.antt =====
-- session/session.go: the usage totals against the ledger of requests that `applyRequestUsage` keeps.

use mathlib.Core.Path.{fun_ext}
use peek_mcp.Prelude.{
  ◌≡◌, refl, sym, ap, ◌∙◌, String, List, [], ◌∷◌, Option, none, some, str_eq, Bool-cases, inl, inr,
}
use peek_mcp.Prelude.Assoc.{Assoc, lookup, insert}
use peek_mcp.Session.State.{
  Session, RequestUsage, UsageTarget, session_total, skill_usage, subagent_usage,
}
use peek_mcp.Session.Usage
use peek_mcp.Session.Usage.{Usage, zero_usage}
use peek_mcp.Session.Usage.Laws.{
  IsWords, plus, minus, plus_assoc, plus-IsWords, plus-zero, add-plus, sub-minus,
}
use peek_mcp.Session.Requests.{on_target, on_targets, take_back, apply_request_usage}
use peek_mcp.Session.Requests.Targets.{
  usage_at, IsLive, AllLive, each, usage_at-on_targets, on_targets-IsLive,
}
use peek_mcp.Session.Requests.Charges.{
  charge, charge_of, charged, each-charge, each-minus, charged_without, charged_split,
  charged-insert,
}

pub requests-on_targets :
    (f : Usage → Usage) (s : Session) (xs : List UsageTarget)
    → (on_targets f s xs).usage_by_request_id ≡ s.usage_by_request_id
unfolding on_targets on_target
requests-on_targets f s [] = refl
requests-on_targets f s (session_total ∷ xs) =
    requests-on_targets f (on_target f s session_total) xs
requests-on_targets f s (skill_usage i ∷ xs) =
    requests-on_targets f (on_target f s (skill_usage i)) xs
requests-on_targets f s (subagent_usage id ∷ xs) =
    requests-on_targets f (on_target f s (subagent_usage id)) xs

abbrev pub EntriesLive : Session → Assoc RequestUsage → Type 0
EntriesLive s [] = Unit
EntriesLive s ((j, r) ∷ m) = AllLive s r.targets × EntriesLive s m

abbrev pub EntryLive : Session → Option RequestUsage → Type 0
EntryLive s none = Unit
EntryLive s (some r) = AllLive s r.targets

-- Live pointers of `s` are live in `s'`.
abbrev pub Extends : Session → Session → Type 0
Extends s s' = (t : UsageTarget) → IsLive s t → IsLive s' t

pub AllLive-Extends :
    (s s' : Session) → Extends s s' → (ts : List UsageTarget) → AllLive s ts → AllLive s' ts
AllLive-Extends s s' x [] h = tt
AllLive-Extends s s' x (t ∷ ts) h = (x t h.0, AllLive-Extends s s' x ts h.1)

pub EntriesLive-Extends :
    (s s' : Session) → Extends s s' → (m : Assoc RequestUsage) → EntriesLive s m → EntriesLive s' m
EntriesLive-Extends s s' x [] h = tt
EntriesLive-Extends s s' x ((j, r) ∷ m) h =
    (AllLive-Extends s s' x r.targets h.0, EntriesLive-Extends s s' x m h.1)

EntryLive-lookup :
    (s : Session) (id : String) (m : Assoc RequestUsage)
    → EntriesLive s m
    → EntryLive s (lookup id m)
unfolding lookup
EntryLive-lookup s id [] h = tt
EntryLive-lookup s id ((j, r) ∷ m) h = elim (Bool-cases (str_eq j id)) [
  | inl e ↦ rw e h.0
  | inr e ↦ rw e (EntryLive-lookup s id m h.1)
]

EntriesLive-insert :
    (s : Session) (id : String) (r : RequestUsage) (m : Assoc RequestUsage)
    → EntriesLive s m
    → AllLive s r.targets
    → EntriesLive s (insert id r m)
unfolding insert
EntriesLive-insert s id r [] h k = (k, tt)
EntriesLive-insert s id r ((j, q) ∷ m) h k = elim (Bool-cases (str_eq j id)) [
  | inl e ↦ rw e (k, h.1)
  | inr e ↦ rw e (h.0, EntriesLive-insert s id r m h.1 k)
]

-- What a total holds beside the ledger: `base` for the session's total, which a usage signal sets,
-- and nothing for a skill or a subagent.
abbrev pub base_at : Usage → UsageTarget → Usage
base_at base session_total = base
base_at base (skill_usage i) = zero_usage
base_at base (subagent_usage id) = zero_usage

-- Every total is its base and the sum of the ledger for it, and the ledger points to objects of the
-- session.
pub record Balances (base : Usage) (s : Session) : Type 0 where
  pub live : EntriesLive s s.usage_by_request_id
  pub total :
      (t : UsageTarget) → usage_at t s ≡ plus (base_at base t) (charged t s.usage_by_request_id)

take_back-Extends : (s : Session) (o : Option RequestUsage) → Extends s (take_back s o)
unfolding take_back
take_back-Extends s none t h = h
take_back-Extends s (some r) t h =
    on_targets-IsLive (λ u. Usage.sub u (some r.counted)) s t r.targets h

pub requests-take_back :
    (s : Session) (o : Option RequestUsage)
    → (take_back s o).usage_by_request_id ≡ s.usage_by_request_id
unfolding take_back
requests-take_back s none = refl
requests-take_back s (some r) = requests-on_targets (λ u. Usage.sub u (some r.counted)) s r.targets

-- Taking the previous report back leaves the rest of the ledger.
usage_at-take_back :
    (s : Session) (o : Option RequestUsage) (t : UsageTarget) (rest : Usage)
    → EntryLive s o
    → IsWords rest
    → usage_at t s ≡ plus rest (charge_of t o)
    → usage_at t (take_back s o) ≡ rest
unfolding take_back
usage_at-take_back s none t rest h w e = e ∙ plus-zero rest w
usage_at-take_back s (some r) t rest h w e =
    usage_at-on_targets (λ u. Usage.sub u (some r.counted)) s t r.targets h
    ∙ ap (λ (f : Usage → Usage). each f t r.targets (usage_at t s))
        (fun_ext (λ u. sub-minus u r.counted))
    ∙ ap (each (λ u. minus u r.counted) t r.targets)
        (e ∙ sym (each-charge r.counted t r.targets rest w))
    ∙ each-minus r.counted t r.targets rest w

usage_at-add_targets :
    (s : Session) (t : UsageTarget) (r : RequestUsage) (rest : Usage)
    → AllLive s r.targets
    → IsWords rest
    → usage_at t s ≡ rest
    → usage_at t (on_targets (λ u. Usage.add u (some r.counted)) s r.targets)
      ≡ plus rest (charge t r)
usage_at-add_targets s t r rest h w e =
    usage_at-on_targets (λ u. Usage.add u (some r.counted)) s t r.targets h
    ∙ ap (λ (f : Usage → Usage). each f t r.targets (usage_at t s))
        (fun_ext (λ u. add-plus u r.counted))
    ∙ ap (each (λ u. plus u r.counted) t r.targets) e
    ∙ each-charge r.counted t r.targets rest w

usage_at-requests :
    (s : Session) (m : Assoc RequestUsage) (t : UsageTarget)
    → usage_at t (record s { usage_by_request_id = m }) ≡ usage_at t s
unfolding usage_at
usage_at-requests s m session_total = refl
usage_at-requests s m (skill_usage i) = refl
usage_at-requests s m (subagent_usage id) = refl

IsLive-requests :
    (s : Session) (m : Assoc RequestUsage) → Extends s (record s { usage_by_request_id = m })
IsLive-requests s m session_total h = h
IsLive-requests s m (skill_usage i) h = h
IsLive-requests s m (subagent_usage id) h = h

pub apply_request_usage-Extends :
    (s : Session) (id : String) (u : Usage) (targets : List UsageTarget)
    → Extends s (apply_request_usage s id u targets)
unfolding apply_request_usage
apply_request_usage-Extends s id u targets t h =
    let s₁ = take_back s (lookup id s.usage_by_request_id) in
    let s₂ = on_targets (λ v. Usage.add v (some u)) s₁ targets in
    IsLive-requests s₂
      (insert id (record { counted = u; targets = targets }) s₂.usage_by_request_id) t
      (on_targets-IsLive (λ v. Usage.add v (some u)) s₁ t targets
        (take_back-Extends s (lookup id s.usage_by_request_id) t h))

module _ {base : Usage} (s : Session) (id : String) (u : Usage) (targets : List UsageTarget)
    (b : Balances base s) (h : AllLive s targets) where
  requests-apply :
      (apply_request_usage s id u targets).usage_by_request_id
      ≡ insert id (record { counted = u; targets = targets }) s.usage_by_request_id
  unfolding apply_request_usage
  requests-apply = ap (insert id (record { counted = u; targets = targets })) (
      requests-on_targets (λ v. Usage.add v (some u))
        (take_back s (lookup id s.usage_by_request_id)) targets
      ∙ requests-take_back s (lookup id s.usage_by_request_id))

  usage_at-apply :
      (t : UsageTarget)
      → usage_at t (apply_request_usage s id u targets)
        ≡ plus (base_at base t) (
            charged t (insert id (record { counted = u; targets = targets }) s.usage_by_request_id))
  unfolding apply_request_usage
  usage_at-apply t =
      let m = s.usage_by_request_id in
      let o = lookup id m in
      let r : RequestUsage = record { counted = u; targets = targets } in
      let s₁ = take_back s o in
      let s₂ = on_targets (λ v. Usage.add v (some u)) s₁ targets in
      let rest = plus (base_at base t) (charged_without t id m) in
      let words = plus-IsWords (base_at base t) (charged_without t id m) in
      usage_at-requests s₂ (insert id r s₂.usage_by_request_id) t
      ∙ usage_at-add_targets s₁ t r rest (AllLive-Extends s s₁ (take_back-Extends s o) targets h)
          words
          (usage_at-take_back s o t rest (EntryLive-lookup s id m b.live) words (
            b.total t
            ∙ ap (plus (base_at base t)) (charged_split t id m)
            ∙ sym (plus_assoc (base_at base t) (charged_without t id m) (charge_of t o))))
      ∙ plus_assoc (base_at base t) (charged_without t id m) (charge t r)
      ∙ ap (plus (base_at base t)) (sym (charged-insert t id r m))

  -- If every total of a session is its base and the sum of its ledger, it stays so, with the same
  -- base, when a request is reported, for the first time or again, with targets in the session.
  pub apply_request_usage-Balances : Balances base (apply_request_usage s id u targets)
  apply_request_usage-Balances =
      let s' = apply_request_usage s id u targets in
      let r : RequestUsage = record { counted = u; targets = targets } in
      record {
        live = rw requests-apply (
            EntriesLive-Extends s s' (apply_request_usage-Extends s id u targets)
              (insert id r s.usage_by_request_id)
              (EntriesLive-insert s id r s.usage_by_request_id b.live h));
        total = λ t.
            usage_at-apply t
            ∙ ap (λ (m : Assoc RequestUsage). plus (base_at base t) (charged t m))
                (sym requests-apply);
      }
