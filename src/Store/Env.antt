-- ===== src/Store/Env.antt =====
-- What the store uses of its surroundings: the file system with the state directory of
-- state/dir.go behind its methods, the diff of go-difflib, the table of unicode.ToLower.
use Prim.Native.Char.{Char}
use peek_mcp.Prelude.{ℕ, String, Bool, List, Option}

-- state.DiffBase
pub record DiffBase : Type 0 where
  pub sha : String
  pub target : String

-- state.PlanVersion
pub record PlanVersion : Type 0 where
  pub content : String
  pub index : ℕ
  pub is_alteration : Bool
  pub mod_time : ℕ

-- A method of the state directory takes the agent and the session id. A write gives the file system
-- that it leaves, whether it fails or not: the store only logs its errors.
pub record Env : Type 1 where
  pub Files : Type 0
  pub read_diff_base : Files → String → String → Option DiffBase
  pub stat_diff_snapshot : Files → String → String → Option ℕ
  pub read_diff_snapshot : Files → String → String → Option (String × ℕ)
  pub read_plan_latest : Files → String → String → Option String
  pub read_plan_versions : Files → String → String → List PlanVersion
  pub write_plan_version : Files → String → String → PlanVersion → Files
  pub write_plan_latest : Files → String → String → String → Files
  -- os.ReadFile
  pub read_file : Files → String → Option String
  -- filepath.Join(cwd, ".claude", "plans", filepath.Base(path))
  pub worktree_plan : String → String → String
  -- difflib.GetUnifiedDiffString of the lines of two texts, three lines of context
  pub unified_diff_string : String → String → Option String
  -- unicode.ToLower
  pub lower : Char → Char
