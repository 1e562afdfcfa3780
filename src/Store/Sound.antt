-- ===== src/Store/Sound.antt =====
-- What holds of a store between two calls: the depth of its rings is a positive number, and every
-- session is sound, with the base that is given for its total.
pub mod Steps
pub mod Keeps
pub mod Signals
pub mod AddTurn
pub mod Sessions
pub mod Calls
use peek_mcp.Prelude.{
  ℕ, ◌<◌, ◌≡◌, String, not, ◌&&◌, Option, none, some, str_eq, is_empty, if◌then◌else◌,
}
use peek_mcp.Prelude.Assoc.{Assoc, lookup}
use peek_mcp.Session.Turn.{Turn}
use peek_mcp.Session.Usage.{Usage}
use peek_mcp.Session.State.{Session}
use peek_mcp.Session.Sound.{IsSound}
use peek_mcp.Store.State.{Store}

abbrev pub AllSound : (String → Usage) → Assoc Session → Type 0
AllSound bases m =
    (id : String) (session : Session) → lookup id m ≡ some session → IsSound (bases id) session

-- The total of each session is its base and the sum of its ledger.
pub record StoreAccounts {Files : Type 0} (bases : String → Usage) (s : Store Files) : Type 0 where
  pub deep : 0 < s.depth
  pub signed : s.depth < 9223372036854775808
  pub all : AllSound bases s.sessions

-- The store is sound for some bases.
abbrev pub StoreSound : {Files : Type 0} → Store Files → Type 0
StoreSound s = (bases : String → Usage) × StoreAccounts bases s

-- The bases after that of one session was replaced.
abbrev pub rebase : (String → Usage) → String → Usage → String → Usage
rebase bases id base other = if str_eq id other then base else bases other

-- The usage that a turn reports as the total of its session. A turn of a sub-agent, a title and the
-- path of a plan without a text report none, nor does a turn with a role.
unfoldable pub reported : Turn → Option Usage
reported turn =
    if not (is_empty turn.subagent_id)
    then none
    else if not (is_empty turn.custom_title)
    then none
    else if not (is_empty turn.plan_file_path) && is_empty turn.text
    then none
    else if is_empty turn.role
    then turn.usage
    else none

-- A total that was reported is that report; any other keeps its base.
abbrev pub Ends : Option Usage → Usage → Usage → Session → Type 0
Ends none base base' session = base' ≡ base
Ends (some usage) base base' session = session.total_usage ≡ usage
