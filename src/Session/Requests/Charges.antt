-- ===== src/Session/Requests/Charges.antt =====
-- What a ledger of requests charges to a target: the sum of its entries for it.
use peek_mcp.Prelude.{
  ◌≡◌, refl, sym, ap, ◌∙◌, String, List, [], ◌∷◌, Option, none, some, str_eq, if◌then◌else◌,
  Bool-cases, inl, inr,
}
use peek_mcp.Prelude.Assoc.{Assoc, lookup, insert}
use peek_mcp.Session.State.{RequestUsage, UsageTarget}
use peek_mcp.Session.Usage.{Usage, zero_usage}
use peek_mcp.Session.Usage.Laws.{
  IsWords, plus, minus, plus_comm, minus-plus, plus-IsWords, plus-zero, zero-plus, zero-IsWords,
  plus_right_comm,
}
use peek_mcp.Session.Requests.Targets.{target_eq, each}

-- What a report of a request with usage `u` adds to the total `t`.
abbrev pub charge : UsageTarget → RequestUsage → Usage
charge t r = each (λ v. plus v r.counted) t r.targets zero_usage

abbrev pub charge_of : UsageTarget → Option RequestUsage → Usage
charge_of t none = zero_usage
charge_of t (some r) = charge t r

-- The sum of the ledger for one total.
unfoldable pub charged : UsageTarget → Assoc RequestUsage → Usage
charged t [] = zero_usage
charged t ((j, r) ∷ m) = plus (charged t m) (charge t r)

-- A summand moves out of the repeated sum.
pub each-plus :
    (u : Usage) (t : UsageTarget) (xs : List UsageTarget) (v w : Usage)
    → each (λ z. plus z u) t xs (plus v w) ≡ plus (each (λ z. plus z u) t xs v) w
unfolding each
each-plus u t [] v w = refl
each-plus u t (x ∷ xs) v w = elim (Bool-cases (target_eq t x)) [
  | inl e ↦
      rw e (ap (each (λ z. plus z u) t xs) (plus_right_comm v w u) ∙ each-plus u t xs (plus v u) w)
  | inr e ↦ rw e (each-plus u t xs v w)
]

pub each-IsWords :
    (u : Usage) (t : UsageTarget) (xs : List UsageTarget) (v : Usage)
    → IsWords v
    → IsWords (each (λ z. plus z u) t xs v)
unfolding each
each-IsWords u t [] v h = h
each-IsWords u t (x ∷ xs) v h = elim (Bool-cases (target_eq t x)) [
  | inl e ↦ rw e (each-IsWords u t xs (plus v u) (plus-IsWords v u))
  | inr e ↦ rw e (each-IsWords u t xs v h)
]

-- The repeated sum on top of a value is that value and the charge.
pub each-charge :
    (u : Usage) (t : UsageTarget) (xs : List UsageTarget) (v : Usage)
    → IsWords v
    → each (λ z. plus z u) t xs v ≡ plus v (each (λ z. plus z u) t xs zero_usage)
each-charge u t xs v h =
    ap (each (λ z. plus z u) t xs) (sym (zero-plus v h))
    ∙ each-plus u t xs zero_usage v
    ∙ plus_comm (each (λ z. plus z u) t xs zero_usage) v

-- Taking back undoes the charge.
pub each-minus :
    (u : Usage) (t : UsageTarget) (xs : List UsageTarget) (v : Usage)
    → IsWords v
    → each (λ z. minus z u) t xs (each (λ z. plus z u) t xs v) ≡ v
unfolding each
each-minus u t [] v h = refl
each-minus u t (x ∷ xs) v h = elim (Bool-cases (target_eq t x)) [
  | inl e ↦ rw e (
      ap (each (λ z. minus z u) t xs) (
        ap (λ z. minus z u) (each-plus u t xs v u)
        ∙ minus-plus (each (λ z. plus z u) t xs v) u (each-IsWords u t xs v h))
      ∙ each-minus u t xs v h)
  | inr e ↦ rw e (each-minus u t xs v h)
]

-- The ledger without the entry that a write to the request replaces.
pub charged_without : UsageTarget → String → Assoc RequestUsage → Usage
charged_without t id [] = zero_usage
charged_without t id ((j, r) ∷ m) =
    if str_eq j id then charged t m else plus (charged_without t id m) (charge t r)

pub charged-IsWords : (t : UsageTarget) (m : Assoc RequestUsage) → IsWords (charged t m)
unfolding charged
charged-IsWords t [] = zero-IsWords
charged-IsWords t ((j, r) ∷ m) = plus-IsWords (charged t m) (charge t r)

pub charged_without-IsWords :
    (t : UsageTarget) (id : String) (m : Assoc RequestUsage) → IsWords (charged_without t id m)
unfolding charged_without
charged_without-IsWords t id [] = zero-IsWords
charged_without-IsWords t id ((j, r) ∷ m) = elim (Bool-cases (str_eq j id)) [
  | inl e ↦ rw e (charged-IsWords t m)
  | inr e ↦ rw e (plus-IsWords (charged_without t id m) (charge t r))
]

pub charged_split :
    (t : UsageTarget) (id : String) (m : Assoc RequestUsage)
    → charged t m ≡ plus (charged_without t id m) (charge_of t (lookup id m))
unfolding charged charged_without lookup
charged_split t id [] = sym (plus-zero zero_usage zero-IsWords)
charged_split t id ((j, r) ∷ m) = elim (Bool-cases (str_eq j id)) [
  | inl e ↦ rw e
  | inr e ↦ rw e (
      ap (λ z. plus z (charge t r)) (charged_split t id m)
      ∙ plus_right_comm (charged_without t id m) (charge_of t (lookup id m)) (charge t r))
]

pub charged-insert :
    (t : UsageTarget) (id : String) (r : RequestUsage) (m : Assoc RequestUsage)
    → charged t (insert id r m) ≡ plus (charged_without t id m) (charge t r)
unfolding charged charged_without insert
charged-insert t id r [] = refl
charged-insert t id r ((j, q) ∷ m) = elim (Bool-cases (str_eq j id)) [
  | inl e ↦ rw e
  | inr e ↦ rw e (
      ap (λ z. plus z (charge t q)) (charged-insert t id r m)
      ∙ plus_right_comm (charged_without t id m) (charge t r) (charge t q))
]
