-- ===== src/Session/Requests/Targets.antt =====
-- The usage totals of a session as the targets of requests, and what a write through a target
-- changes.
use peek_mcp.Prelude.{
  ℕ, zero, suc, ◌<◌, ◌≡◌, refl, ap, ◌∙◌, String, Bool, true, false, List, [], ◌∷◌, Option, none,
  some, length, get_elem?, length-modify, get_elem?-modify, arith, str_eq, eq_iff, is_some, ◌==◌,
  if◌then◌else◌, Option-cases, inl, inr,
}
use peek_mcp.Prelude.Assoc.{Assoc, lookup, lookup-insert}
use peek_mcp.Session.State.{
  Session, SkillStat, SubagentStat, UsageTarget, session_total, skill_usage, subagent_usage,
}
use peek_mcp.Session.Usage.{Usage, zero_usage}
use peek_mcp.Session.Requests.{on_skill, on_subagent, update_at, on_target, on_targets}

unfoldable pub usage_of_skill : Option SkillStat → Usage
usage_of_skill none = zero_usage
usage_of_skill (some stat) = stat.usage

unfoldable pub usage_of_subagent : Option SubagentStat → Usage
usage_of_subagent none = zero_usage
usage_of_subagent (some stat) = stat.usage

-- What a pointer to a usage total reads.
unfoldable pub usage_at : UsageTarget → Session → Usage
unfolding usage_of_skill usage_of_subagent
usage_at session_total s = s.total_usage
usage_at (skill_usage i) s = usage_of_skill (get_elem? s.skills i)
usage_at (subagent_usage id) s = usage_of_subagent (lookup id s.subagents)

unfoldable pub target_eq : UsageTarget → UsageTarget → Bool
target_eq session_total session_total = true
target_eq (skill_usage i) (skill_usage j) = i == j
target_eq (subagent_usage id) (subagent_usage other) = str_eq id other
target_eq _ _ = false

-- The pointer points to an object of the session.
abbrev pub IsLive : Session → UsageTarget → Type 0
IsLive s session_total = Unit
IsLive s (skill_usage i) = i < length s.skills
IsLive s (subagent_usage id) = is_some (lookup id s.subagents) ≡ true

abbrev pub AllLive : Session → List UsageTarget → Type 0
AllLive s [] = Unit
AllLive s (t ∷ ts) = IsLive s t × AllLive s ts

pub get_elem?_some {ℓ} :
    {A : Type ℓ} (xs : List A) (i : ℕ) → i < length xs → is_some (get_elem? xs i) ≡ true
get_elem?_some [] i h = absurd (omega arith)
get_elem?_some (x ∷ xs) zero h = refl
get_elem?_some (x ∷ xs) (suc i) h = get_elem?_some xs i (omega arith)

pub read-update_at :
    (f : Usage → Usage) (m : Assoc SubagentStat) (j id : String)
    → is_some (lookup id m) ≡ true
    → usage_of_subagent (lookup j (update_at id (on_subagent f) m (lookup id m)))
      ≡ (if str_eq j id then f (usage_of_subagent (lookup j m)) else usage_of_subagent (lookup j m))
unfolding usage_of_subagent
read-update_at f m j id h = elim (Option-cases (lookup id m)) [
  | inl e ↦ absurd (ground arith)
  | inr (v, e) ↦
      rw e (ground (arith, e, lookup-insert id j (on_subagent f v) m, eq_iff id j, eq_iff j id))
]

-- A write through one pointer is read through that pointer alone.
pub usage_at-on_target :
    (f : Usage → Usage) (s : Session) (t x : UsageTarget)
    → IsLive s x
    → usage_at t (on_target f s x) ≡ (if target_eq t x then f (usage_at t s) else usage_at t s)
unfolding usage_at on_target target_eq
usage_at-on_target f s session_total session_total h = refl
usage_at-on_target f s session_total (skill_usage i) h = refl
usage_at-on_target f s session_total (subagent_usage id) h = refl
usage_at-on_target f s (skill_usage i) session_total h = refl
usage_at-on_target f s (skill_usage j) (skill_usage i) h =
    ground (arith, get_elem?-modify (on_skill f) s.skills i j, get_elem?_some s.skills i h)
usage_at-on_target f s (skill_usage j) (subagent_usage id) h = refl
usage_at-on_target f s (subagent_usage id) session_total h = refl
usage_at-on_target f s (subagent_usage id) (skill_usage i) h = refl
usage_at-on_target f s (subagent_usage j) (subagent_usage id) h =
    read-update_at f s.subagents j id h

-- A write through a live pointer keeps the live pointers.
pub on_target-IsLive :
    (f : Usage → Usage) (s : Session) (t x : UsageTarget) → IsLive s t → IsLive (on_target f s x) t
unfolding on_target
on_target-IsLive f s session_total x h = tt
on_target-IsLive f s (skill_usage i) (skill_usage j) h =
    omega (arith, length-modify (on_skill f) s.skills j)
on_target-IsLive f s (subagent_usage id) (subagent_usage j) h =
    elim (Option-cases (lookup j s.subagents)) [
      | inl e ↦ rw e h
      | inr (v, e) ↦ rw e (ground (arith, lookup-insert j id (on_subagent f v) s.subagents))
    ]
on_target-IsLive f s (skill_usage i) session_total h = h
on_target-IsLive f s (skill_usage i) (subagent_usage id) h = h
on_target-IsLive f s (subagent_usage i) session_total h = h
on_target-IsLive f s (subagent_usage i) (skill_usage id) h = h

pub on_target-AllLive :
    (f : Usage → Usage) (s : Session) (x : UsageTarget) (ts : List UsageTarget)
    → AllLive s ts
    → AllLive (on_target f s x) ts
on_target-AllLive f s x [] h = tt
on_target-AllLive f s x (t ∷ ts) h = (on_target-IsLive f s t x h.0, on_target-AllLive f s x ts h.1)

-- `f` applied once for each occurrence of `t`.
unfoldable pub each : (Usage → Usage) → UsageTarget → List UsageTarget → Usage → Usage
each f t [] v = v
each f t (x ∷ xs) v = each f t xs (if target_eq t x then f v else v)

pub usage_at-on_targets :
    (f : Usage → Usage) (s : Session) (t : UsageTarget) (xs : List UsageTarget)
    → AllLive s xs
    → usage_at t (on_targets f s xs) ≡ each f t xs (usage_at t s)
unfolding on_targets each
usage_at-on_targets f s t [] h = refl
usage_at-on_targets f s t (x ∷ xs) h =
    usage_at-on_targets f (on_target f s x) t xs (on_target-AllLive f s x xs h.1)
    ∙ ap (each f t xs) (usage_at-on_target f s t x h.0)

pub on_targets-IsLive :
    (f : Usage → Usage) (s : Session) (t : UsageTarget) (xs : List UsageTarget)
    → IsLive s t
    → IsLive (on_targets f s xs) t
unfolding on_targets
on_targets-IsLive f s t [] h = h
on_targets-IsLive f s t (x ∷ xs) h =
    on_targets-IsLive f (on_target f s x) t xs (on_target-IsLive f s t x h)
