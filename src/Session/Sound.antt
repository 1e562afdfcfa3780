-- ===== src/Session/Sound.antt =====
-- What holds of a session between two calls: its rings are valid, every pointer to a skill stat or
-- a usage total points into the session, and each total
-- is the sum of the ledger of requests for it (and of `base`, for the total of the session).
pub mod Frame
pub mod Events
pub mod Turns
pub mod Reports
pub mod Subagents
use peek_mcp.Prelude.{ℕ, ◌<◌, String, List, [], ◌∷◌, length}
use peek_mcp.Prelude.Assoc.{Assoc}
use peek_mcp.Session.State.{Session, SubagentStat}
use peek_mcp.Session.Usage.{Usage}
use peek_mcp.Session.TurnBuffer.Window.{IsValid}
use peek_mcp.Session.Requests.Ledger.{Balances}

-- Every skill window is the place of a skill stat.
abbrev pub AllBelow : ℕ → Assoc ℕ → Type 0
AllBelow n [] = Unit
AllBelow n ((actor, i) ∷ m) = (i < n) × AllBelow n m

abbrev pub AllRings : Assoc SubagentStat → Type 0
AllRings [] = Unit
AllRings ((id, stat) ∷ m) = IsValid stat.turns × AllRings m

pub record IsSound (base : Usage) (s : Session) : Type 0 where
  pub ring : IsValid s.turns_finished
  pub rings : AllRings s.subagents
  pub windows : AllBelow (length s.skills) s.active_skills
  pub balanced : Balances base s
