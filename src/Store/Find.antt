-- ===== src/Store/Find.antt =====
-- session/store.go: sessions by id, by title and by their last activity. `sort.Slice` is modelled
-- by an insertion sort; of sessions that were active at the same time Go may put either first.
pub mod Order
use peek_mcp.Prelude.{
  ℕ, String, Bool, not, ◌&&◌, List, [], ◌∷◌, Option, none, some, map, keep, take, str_eq, is_empty,
  ltb, if◌then◌else◌,
}
use peek_mcp.Prelude.Assoc.{Assoc, lookup}
use peek_mcp.Prelude.Text.{trim_space, to_lower, contains}
use peek_mcp.Session.State.{Session}
use peek_mcp.Store.Env.{Env}
use peek_mcp.Store.State.{Store}

abbrev pub max_title_candidates : ℕ
max_title_candidates = 5

unfoldable pub insert_desc : Session → List Session → List Session
insert_desc x [] = x ∷ []
insert_desc x (y ∷ ys) =
    let rest = insert_desc x ys in if ltb x.last_active y.last_active then y ∷ rest else x ∷ y ∷ ys

-- `sortSessionsByLastActiveDesc(sessions)`
unfoldable pub sort_sessions_by_last_active_desc : List Session → List Session
unfolding insert_desc
sort_sessions_by_last_active_desc [] = []
sort_sessions_by_last_active_desc (x ∷ xs) = insert_desc x (sort_sessions_by_last_active_desc xs)

of_agent : List String → List Session → List Session
of_agent [] sessions = sessions
of_agent (agent ∷ agents) sessions = keep (λ session. str_eq session.agent agent) sessions

module _ {Files : Type 0} where
  -- `s.sortByLastActiveDesc(agents...)`, and `s.List(agents...)`
  unfoldable pub sort_by_last_active_desc : Store Files → List String → List Session
  unfolding of_agent
  sort_by_last_active_desc s agents =
      sort_sessions_by_last_active_desc (of_agent agents (map (λ p. p.1) s.sessions))

  -- `s.Last(agents...)`
  unfoldable pub last_session : Store Files → List String → Option Session
  unfolding sort_by_last_active_desc
  last_session s agents = elim (sort_by_last_active_desc s agents) [
    | [] ↦ none
    | session ∷ rest ↦ some session
  ]

  -- `s.GetById(id)`
  unfoldable pub get_by_id : Store Files → String → Option Session
  get_by_id s id = lookup id s.sessions

-- What `GetByTitle` returns: a session, or an error with the candidates that its text lists.
pub data TitleMatch : Type 0 where
  found : Session → TitleMatch
  no_match : TitleMatch
  ambiguous : List Session → TitleMatch

abbrev add_match : Bool → Option Session → List Session → List Session
add_match b none rest = rest
add_match b (some session) rest = if b then session ∷ rest else rest

module _ {Files : Type 0} where
  -- The session of an entry of `plainTitleById`, if it passes the filters.
  unfoldable pub candidate : Store Files → String → String → Option Session
  candidate s agent id = elim (lookup id s.sessions) [
    | none ↦ none
    | some session ↦
        if not (is_empty agent) && not (str_eq session.agent agent) then none else some session
  ]

  -- The matches that the loop of `GetByTitle` collects by a test of the plain title.
  unfoldable pub matches : Store Files → String → (String → Bool) → Assoc String → List Session
  unfolding candidate
  matches s agent test [] = []
  matches s agent test ((id, plain_title) ∷ titles) =
      add_match (test plain_title) (candidate s agent id) (matches s agent test titles)

pick_substring : List Session → TitleMatch
pick_substring [] = no_match
pick_substring (session ∷ []) = found session
pick_substring (session ∷ other ∷ rest) =
    ambiguous (take max_title_candidates (session ∷ other ∷ rest))

pick_exact : List Session → List Session → TitleMatch
pick_exact [] substring_matches =
    pick_substring (sort_sessions_by_last_active_desc substring_matches)
pick_exact (session ∷ rest) substring_matches = found session

-- `s.GetByTitle(title, agent)`
module _ (env : Env) where
  unfoldable pub get_by_title : Store env.Files → String → String → TitleMatch
  unfolding matches pick_exact pick_substring
  get_by_title s title agent =
      let needle = to_lower env.lower (trim_space title) in
      let exact : String → Bool = λ plain. str_eq plain needle in
      let substring : String → Bool = λ plain. not (str_eq plain needle) && contains plain needle in
      pick_exact (sort_sessions_by_last_active_desc (matches s agent exact s.plain_title_by_id))
        (matches s agent substring s.plain_title_by_id)
