-- ===== src/Session/Meta.antt =====
-- session/meta.go and session/role.go: what a transcript says of its session, and the roles.
use peek_mcp.Prelude.{
  String, Bool, false, ◌||◌, List, [], ◌∷◌, Option, none, some, str_eq, is_empty, if◌then◌else◌,
}

pub record Origin : Type 0 where
  pub agent_nickname : String
  pub cli_version : String
  pub commit_hash : String
  pub forked_from_id : String
  pub originator : String
  pub parent_thread_id : String
  pub repository_url : String
  pub source_kind : String

pub record Meta : Type 0 where
  pub session_id : String
  pub cwd : String
  pub git_branch : String
  pub model : String
  pub project : String
  pub origin : Option Origin

-- One `if other.F != "" { m.F = other.F }`.
abbrev pub newer : String → String → String
newer old next = if is_empty next then old else next

abbrev newer_origin : Option Origin → Option Origin → Option Origin
newer_origin old none = old
newer_origin old (some next) = some next

-- `m.Update(other)` of an `other` that is not nil.
unfoldable pub update : Meta → Meta → Meta
update m other = record {
  session_id = newer m.session_id other.session_id;
  cwd = newer m.cwd other.cwd;
  git_branch = newer m.git_branch other.git_branch;
  model = newer m.model other.model;
  project = newer m.project other.project;
  origin = newer_origin m.origin other.origin;
}

abbrev pub role_assistant : String
role_assistant = "assistant"

abbrev pub role_developer : String
role_developer = "developer"

abbrev pub role_user : String
role_user = "user"

abbrev pub valid_roles : List String
valid_roles = role_user ∷ role_assistant ∷ role_developer ∷ []

any_equal : String → List String → Bool
any_equal r [] = false
any_equal r (role ∷ roles) = str_eq role r || any_equal r roles

-- `r.IsValid()`
unfoldable pub is_valid_role : String → Bool
unfolding any_equal
is_valid_role r = any_equal r valid_roles

-- Metadata that say no more than the session, as the parsers' struct literals begin it.
abbrev pub blank_meta : String → Meta
blank_meta id = record {
  session_id = id;
  cwd = "";
  git_branch = "";
  model = "";
  project = "";
  origin = none;
}

abbrev pub blank_origin : Origin
blank_origin = record {
  agent_nickname = "";
  cli_version = "";
  commit_hash = "";
  forked_from_id = "";
  originator = "";
  parent_thread_id = "";
  repository_url = "";
  source_kind = "";
}
