-- ===== src/Session/Sound/Frame.antt =====
-- Changes that leave the totals alone, and the lists of windows and rings under map writes.
use peek_mcp.Prelude.{
  ℕ, zero, suc, ◌≤◌, ◌<◌, ◌≡◌, refl, sym, ap, ◌∙◌, String, true, List, [], ◌∷◌, ◌++◌, some, length,
  get_elem?, modify, arith, str_eq, is_some, Bool-cases, inl, inr,
}
use peek_mcp.Prelude.Assoc.{Assoc, lookup, insert, erase}
use peek_mcp.Session.Usage.Laws.{plus}
use peek_mcp.Session.State.{
  RequestUsage, Session, SkillStat, SubagentStat, UsageTarget, session_total, skill_usage,
  subagent_usage,
}
use peek_mcp.Session.Usage.{Usage, zero_usage}
use peek_mcp.Session.TurnBuffer.Window.{IsValid}
use peek_mcp.Session.Requests.Targets.{usage_at, usage_of_skill, usage_of_subagent}
use peek_mcp.Session.Requests.Charges.{charged}
use peek_mcp.Session.Requests.Ledger.{Extends, EntriesLive-Extends, Balances, base_at}
use peek_mcp.Session.Sound.{AllBelow, AllRings}

-- A change that keeps the ledger, what every live pointer reads and the live pointers keeps the
-- balance.
pub Balances-frame :
    {base : Usage} (s s' : Session)
    → s'.usage_by_request_id ≡ s.usage_by_request_id
    → ((t : UsageTarget) → usage_at t s' ≡ usage_at t s)
    → Extends s s'
    → Balances base s
    → Balances base s'
Balances-frame {base} s s' e same x b = record {
  live = rw e (EntriesLive-Extends s s' x s.usage_by_request_id b.live);
  total = λ t.
      same t
      ∙ b.total t
      ∙ ap (λ (m : Assoc RequestUsage). plus (base_at base t) (charged t m)) (sym e);
}

-- Skills and subagents with the same usage read the same.
pub record SameTotals (s s' : Session) : Type 0 where
  pub total : s'.total_usage ≡ s.total_usage
  pub skills :
      (i : ℕ) → usage_of_skill (get_elem? s'.skills i) ≡ usage_of_skill (get_elem? s.skills i)
  pub skill_count : length s.skills ≤ length s'.skills
  pub subagents :
      (id : String)
      → usage_of_subagent (lookup id s'.subagents) ≡ usage_of_subagent (lookup id s.subagents)
  pub subagent_keys :
      (id : String)
      → is_some (lookup id s.subagents) ≡ true
      → is_some (lookup id s'.subagents) ≡ true
  pub ledger : s'.usage_by_request_id ≡ s.usage_by_request_id

usage_at-SameTotals :
    (s s' : Session) → SameTotals s s' → (t : UsageTarget) → usage_at t s' ≡ usage_at t s
unfolding usage_at
usage_at-SameTotals s s' h session_total = h.total
usage_at-SameTotals s s' h (skill_usage i) = h.skills i
usage_at-SameTotals s s' h (subagent_usage id) = h.subagents id

Extends-SameTotals : (s s' : Session) → SameTotals s s' → Extends s s'
Extends-SameTotals s s' h session_total l = tt
Extends-SameTotals s s' h (skill_usage i) l = omega (arith, h.skill_count)
Extends-SameTotals s s' h (subagent_usage id) l = h.subagent_keys id l

pub Balances-SameTotals :
    {base : Usage} (s s' : Session) → SameTotals s s' → Balances base s → Balances base s'
Balances-SameTotals s s' h =
    Balances-frame s s' h.ledger (usage_at-SameTotals s s' h) (Extends-SameTotals s s' h)

-- A change of a skill that keeps its usage.
pub skill_usages-modify :
    (f : SkillStat → SkillStat)
    → ((st : SkillStat) → (f st).usage ≡ st.usage)
    → (xs : List SkillStat) (i j : ℕ)
    → usage_of_skill (get_elem? (modify f xs i) j) ≡ usage_of_skill (get_elem? xs j)
unfolding usage_of_skill
skill_usages-modify f keep [] i j = refl
skill_usages-modify f keep (x ∷ xs) zero zero = keep x
skill_usages-modify f keep (x ∷ xs) zero (suc j) = refl
skill_usages-modify f keep (x ∷ xs) (suc i) zero = refl
skill_usages-modify f keep (x ∷ xs) (suc i) (suc j) = skill_usages-modify f keep xs i j

-- A new skill without usage.
pub skill_usages-snoc :
    (xs : List SkillStat) (x : SkillStat) (j : ℕ)
    → x.usage ≡ zero_usage
    → usage_of_skill (get_elem? (xs ++ x ∷ []) j) ≡ usage_of_skill (get_elem? xs j)
unfolding usage_of_skill
skill_usages-snoc [] x zero e = e
skill_usages-snoc [] x (suc j) e = refl
skill_usages-snoc (y ∷ xs) x zero e = refl
skill_usages-snoc (y ∷ xs) x (suc j) e = skill_usages-snoc xs x j e

pub AllBelow-mono : {n k : ℕ} (m : Assoc ℕ) → n ≤ k → AllBelow n m → AllBelow k m
AllBelow-mono [] h b = tt
AllBelow-mono ((actor, i) ∷ m) h b = (omega arith, AllBelow-mono m h b.1)

pub AllBelow-erase :
    (n : ℕ) (actor : String) (m : Assoc ℕ) → AllBelow n m → AllBelow n (erase actor m)
unfolding erase
AllBelow-erase n actor [] b = tt
AllBelow-erase n actor ((a, i) ∷ m) b = elim (Bool-cases (str_eq a actor)) [
  | inl e ↦ rw e (AllBelow-erase n actor m b.1)
  | inr e ↦ rw e (b.0, AllBelow-erase n actor m b.1)
]

pub AllBelow-insert :
    {n : ℕ} (actor : String) (i : ℕ) (m : Assoc ℕ)
    → i < n
    → AllBelow n m
    → AllBelow n (insert actor i m)
unfolding insert
AllBelow-insert actor i [] h b = (h, tt)
AllBelow-insert actor i ((a, k) ∷ m) h b = elim (Bool-cases (str_eq a actor)) [
  | inl e ↦ rw e (h, b.1)
  | inr e ↦ rw e (b.0, AllBelow-insert actor i m h b.1)
]

pub AllBelow-lookup :
    {n : ℕ} (actor : String) (m : Assoc ℕ) {i : ℕ} → AllBelow n m → lookup actor m ≡ some i → i < n
unfolding lookup
AllBelow-lookup actor [] b h = absurd (ground arith)
AllBelow-lookup actor ((a, k) ∷ m) b h = elim (Bool-cases (str_eq a actor)) [
  | inl e ↦ ground (arith, b.0)
  | inr e ↦ AllBelow-lookup actor m b.1 (ground arith)
]

pub AllRings-insert :
    (id : String) (stat : SubagentStat) (m : Assoc SubagentStat)
    → IsValid stat.turns
    → AllRings m
    → AllRings (insert id stat m)
unfolding insert
AllRings-insert id stat [] h b = (h, tt)
AllRings-insert id stat ((a, k) ∷ m) h b = elim (Bool-cases (str_eq a id)) [
  | inl e ↦ rw e (h, b.1)
  | inr e ↦ rw e (b.0, AllRings-insert id stat m h b.1)
]

pub AllRings-lookup :
    (id : String) (m : Assoc SubagentStat) {stat : SubagentStat}
    → AllRings m
    → lookup id m ≡ some stat
    → IsValid stat.turns
unfolding lookup
AllRings-lookup id [] b h = absurd (ground arith)
AllRings-lookup id ((a, k) ∷ m) {stat} b h = elim (Bool-cases (str_eq a id)) [
  | inl e ↦ let same : k ≡ stat = ground arith in rw same at b.0
  | inr e ↦ AllRings-lookup id m {stat = stat} b.1 (ground arith)
]
