-- ===== src/Store/Find/Order.antt =====
-- session/store.go: the order of the sessions that `List` and `Last` give.
use peek_mcp.Prelude.{
  ℕ, suc, ◌≤◌, ◌≡◌, refl, sym, ap, ◌∙◌, String, Bool, true, List, [], ◌∷◌, Option, none, some, map,
  keep, str_eq, arith, ◌&&◌, ltb, if◌then◌else◌, Bool-cases, inl, inr, ◌⊎◌,
}
use peek_mcp.Prelude.Assoc.{Assoc}
use peek_mcp.Session.State.{Session}
use peek_mcp.Store.State.{Store}
use peek_mcp.Store.Find.{
  insert_desc, sort_sessions_by_last_active_desc, of_agent, sort_by_last_active_desc, last_session,
}

-- No session of the list was active after `t`.
abbrev pub AllUpTo : ℕ → List Session → Type 0
AllUpTo t [] = Unit
AllUpTo t (y ∷ ys) = (y.last_active ≤ t) × AllUpTo t ys

-- Each session was last active no earlier than those behind it.
abbrev pub IsDescending : List Session → Type 0
IsDescending [] = Unit
IsDescending (x ∷ xs) = AllUpTo x.last_active xs × IsDescending xs

AllUpTo-weaken : (t u : ℕ) (ys : List Session) → t ≤ u → AllUpTo t ys → AllUpTo u ys
AllUpTo-weaken t u [] le h = tt
AllUpTo-weaken t u (y ∷ ys) le h = (omega (arith, h.0), AllUpTo-weaken t u ys le h.1)

AllUpTo-insert_desc :
    (t : ℕ) (x : Session) (ys : List Session)
    → x.last_active ≤ t
    → AllUpTo t ys
    → AllUpTo t (insert_desc x ys)
unfolding insert_desc
AllUpTo-insert_desc t x [] le h = (le, tt)
AllUpTo-insert_desc t x (y ∷ ys) le h = elim (Bool-cases (ltb x.last_active y.last_active)) [
  | inl e ↦ rw e (h.0, AllUpTo-insert_desc t x ys le h.1)
  | inr e ↦ rw e (le, (h.0, h.1))
]

IsDescending-insert_desc :
    (x : Session) (ys : List Session) → IsDescending ys → IsDescending (insert_desc x ys)
unfolding insert_desc
IsDescending-insert_desc x [] h = (tt, tt)
IsDescending-insert_desc x (y ∷ ys) h = elim (Bool-cases (ltb x.last_active y.last_active)) [
  | inl e ↦
      rw e (
        AllUpTo-insert_desc y.last_active x ys (ground arith) h.0,
        IsDescending-insert_desc x ys h.1,
      )
  | inr e ↦
      rw e (
        (ground arith, AllUpTo-weaken y.last_active x.last_active ys (ground arith) h.0),
        (h.0, h.1),
      )
]

sort-IsDescending : (xs : List Session) → IsDescending (sort_sessions_by_last_active_desc xs)
unfolding sort_sessions_by_last_active_desc
sort-IsDescending [] = tt
sort-IsDescending (x ∷ xs) =
    IsDescending-insert_desc x (sort_sessions_by_last_active_desc xs) (sort-IsDescending xs)

-- How many sessions of a list pass a test.
pub count : (Session → Bool) → List Session → ℕ
count p [] = 0
count p (x ∷ xs) = if p x then suc (count p xs) else count p xs

count-insert_desc :
    (p : Session → Bool) (x : Session) (ys : List Session)
    → count p (insert_desc x ys) ≡ count p (x ∷ ys)
unfolding insert_desc count
count-insert_desc p x [] = refl
count-insert_desc p x (y ∷ ys) = ground (arith, count-insert_desc p x ys)

sort-count :
    (p : Session → Bool) (xs : List Session)
    → count p (sort_sessions_by_last_active_desc xs) ≡ count p xs
unfolding sort_sessions_by_last_active_desc count
sort-count p [] = refl
sort-count p (x ∷ xs) =
    count-insert_desc p x (sort_sessions_by_last_active_desc xs) ∙ ground (arith, sort-count p xs)

-- Whether the agents ask for a session.
abbrev pub is_wanted : List String → Session → Bool
is_wanted [] session = true
is_wanted (agent ∷ agents) session = str_eq session.agent agent

abbrev pub values : Assoc Session → List Session
values [] = []
values ((id, session) ∷ m) = session ∷ values m

count-keep :
    (p q : Session → Bool) (xs : List Session) → count p (keep q xs) ≡ count (λ x. q x && p x) xs
unfolding count
count-keep p q [] = refl
count-keep p q (x ∷ xs) = ground (arith, count-keep p q xs)

values-map : (m : Assoc Session) → map (λ entry. entry.1) m ≡ values m
values-map [] = refl
values-map ((id, session) ∷ m) = ap (λ xs. session ∷ xs) (values-map m)

count-of_agent :
    (p : Session → Bool) (agents : List String) (xs : List Session)
    → count p (of_agent agents xs) ≡ count (λ x. is_wanted agents x && p x) xs
unfolding of_agent
count-of_agent p [] xs = refl
count-of_agent p (agent ∷ agents) xs = count-keep p (λ session. str_eq session.agent agent) xs

-- The list for some agents is in descending order of the last activity, and it holds the sessions
-- of the store that the agents ask for: every test is passed by as many sessions of the list as of
-- those.
pub sort_by_last_active_desc-sorts :
    {Files : Type 0} (s : Store Files) (agents : List String) (p : Session → Bool)
    → IsDescending (sort_by_last_active_desc s agents)
      × (count p (sort_by_last_active_desc s agents)
          ≡ count (λ x. is_wanted agents x && p x) (values s.sessions))
unfolding sort_by_last_active_desc
sort_by_last_active_desc-sorts s agents p =
    let listed = of_agent agents (map (λ entry. entry.1) s.sessions) in
    (
      sort-IsDescending listed,
      sort-count p listed
          ∙ count-of_agent p agents (map (λ entry. entry.1) s.sessions)
          ∙ ap (count (λ x. is_wanted agents x && p x)) (values-map s.sessions),
    )

count-later :
    (q : Session → Bool) (t : ℕ) (xs : List Session)
    → AllUpTo t xs
    → count (λ y. q y && ltb t y.last_active) xs ≡ 0
unfolding count
count-later q t [] h = refl
count-later q t (x ∷ xs) h = ground (arith, h.0, count-later q t xs h.1)

abbrev pub Has : Session → List Session → Type 0
Has x [] = ⊥
Has x (y ∷ ys) = (x ≡ y) ⊎ Has x ys

Has-insert_desc : (z x : Session) (ys : List Session) → Has z (insert_desc x ys) → Has z (x ∷ ys)
unfolding insert_desc
Has-insert_desc z x [] h = h
Has-insert_desc z x (y ∷ ys) h = elim (Bool-cases (ltb x.last_active y.last_active)) [
  | inr e ↦ rw e at h
  | inl e ↦ elim (rw e at h) [
    | inl same ↦ inr (inl same)
    | inr later ↦ elim (Has-insert_desc z x ys later) [ inl i ↦ inl i | inr i ↦ inr (inr i) ]
  ]
]

Has-sort :
    (z : Session) (xs : List Session) → Has z (sort_sessions_by_last_active_desc xs) → Has z xs
unfolding sort_sessions_by_last_active_desc
Has-sort z [] h = h
Has-sort z (x ∷ xs) h = elim (Has-insert_desc z x (sort_sessions_by_last_active_desc xs) h) [
  | inl same ↦ inl same
  | inr later ↦ inr (Has-sort z xs later)
]

Has-keep :
    (z : Session) (q : Session → Bool) (xs : List Session)
    → Has z (keep q xs)
    → Has z xs × (q z ≡ true)
Has-keep z q [] h = absurd h
Has-keep z q (x ∷ xs) h = elim (Bool-cases (q x)) [
  | inl e ↦ elim (rw e at h) [
    | inl same ↦ (inl same, ap q same ∙ e)
    | inr later ↦ let (i, w) = Has-keep z q xs later in (inr i, w)
  ]
  | inr e ↦ let (i, w) = Has-keep z q xs (rw e at h) in (inr i, w)
]

Has-of_agent :
    (z : Session) (agents : List String) (xs : List Session)
    → Has z (of_agent agents xs)
    → Has z xs × (is_wanted agents z ≡ true)
unfolding of_agent
Has-of_agent z [] xs h = (h, refl)
Has-of_agent z (agent ∷ agents) xs h = Has-keep z (λ session. str_eq session.agent agent) xs h

-- The session is among those that pass a test, and none of them was active later; without a
-- session, none passes.
abbrev pub IsNewest : (Session → Bool) → List Session → Option Session → Type 0
IsNewest wanted xs none = count (λ y. wanted y && true) xs ≡ 0
IsNewest wanted xs (some x) =
    Has x xs × (wanted x ≡ true) × (count (λ y. wanted y && ltb x.last_active y.last_active) xs ≡ 0)

IsNewest-of :
    (wanted : Session → Bool) (xs sorted : List Session)
    → IsDescending sorted
    → ((p : Session → Bool) → count p sorted ≡ count (λ y. wanted y && p y) xs)
    → ((z : Session) → Has z sorted → Has z xs × (wanted z ≡ true))
    → IsNewest wanted xs (elim sorted [ [] ↦ none | session ∷ rest ↦ some session ])
unfolding count
IsNewest-of wanted xs [] d same has = sym (same (λ y. true))
IsNewest-of wanted xs (x ∷ rest) d same has =
    let (i, w) = has x (inl refl) in
    (
      i,
      w,
      sym (same (λ y. ltb x.last_active y.last_active))
          ∙ count-later (λ y. true) x.last_active (x ∷ rest) (omega arith, d.0),
    )

-- `Last` gives a session of the store that the agents ask for, and no other such session was active
-- later; it gives none only if the store has none that they ask for.
pub last_session-IsNewest :
    {Files : Type 0} (s : Store Files) (agents : List String)
    → IsNewest (is_wanted agents) (values s.sessions) (last_session s agents)
unfolding last_session sort_by_last_active_desc
last_session-IsNewest s agents =
    IsNewest-of (is_wanted agents) (values s.sessions) (sort_by_last_active_desc s agents)
      (sort_by_last_active_desc-sorts s agents (λ y. true)).0
      (λ p. (sort_by_last_active_desc-sorts s agents p).1)
      (λ z h. rw values-map at (
        Has-of_agent z agents (map (λ entry. entry.1) s.sessions)
          (Has-sort z (of_agent agents (map (λ entry. entry.1) s.sessions)) h)))
