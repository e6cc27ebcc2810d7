-- ===== src/Supervision/Node.antt =====
-- src/supervision.rs: the types of the supervision tree, and the functions on plain values.
-- Times (`DateTime<Utc>`) and durations in milliseconds are numbers. A sender of a command channel
-- (`mpsc::Sender`) is known by a number, which the caller that opened the channel passes in.
use puff.Common.{
  ℕ, ◌*◌, Bool, false, ◌&&◌, ◌||◌, Option, List, [], ◌∷◌, Text, codes, ltb, leb, if◌then◌else◌,
  ◌==◌, nat_eq,
}
use puff.Common.Table.{Table}
use puff.Common.Json.{Json}

pub data SupervisorNodeKind : Type 0 where
  system_root service agent_supervisor agent_instance : SupervisorNodeKind

pub data SupervisorNodeState : Type 0 where
  starting running degraded stopping stopped failed : SupervisorNodeState

pub data RestartPolicy : Type 0 where
  permanent transient temporary : RestartPolicy

pub record SupervisionConfig : Type 0 where
  pub enable : Bool
  pub admin_api : Bool
  pub event_stream : Bool
  pub max_dynamic_children : ℕ

abbrev pub default_max_children : ℕ
default_max_children = 64

abbrev pub default_max_dynamic_children : ℕ
default_max_dynamic_children = 256

-- `SupervisionConfig::default`
abbrev pub default_config : SupervisionConfig
default_config = record {
  enable = false;
  admin_api = false;
  event_stream = false;
  max_dynamic_children = default_max_dynamic_children;
}

pub record AgentSupervisorSpec : Type 0 where
  pub name : Text
  pub supervisor_agent : Text
  pub workers : List Text
  pub boot : Bool
  pub max_children : ℕ

pub record AgentInstanceSpec : Type 0 where
  pub agent_name : Text
  pub display_name : Text
  pub metadata : Json

pub record SupervisorNodeSnapshot : Type 0 where
  pub node_id : Text
  pub parent_id : Option Text
  pub kind : SupervisorNodeKind
  pub display_name : Text
  pub state : SupervisorNodeState
  pub restart_policy : RestartPolicy
  pub restart_count : ℕ
  pub dynamic : Bool
  pub configured_agent : Option Text
  pub supervisor_agent : Option Text
  pub workers : List Text
  pub max_children : Option ℕ
  pub last_error : Option Text
  pub last_failure_at : Option ℕ
  pub started_at : Option ℕ
  pub updated_at : ℕ
  pub children : List Text
  pub metadata : Json

pub data SupervisorEventKind : Type 0 where
  node_added node_updated restart_scheduled : SupervisorEventKind

pub record SupervisorEvent : Type 0 where
  pub kind : SupervisorEventKind
  pub node : SupervisorNodeSnapshot
  pub timestamp : ℕ
  pub message : Option Text

pub data SupervisorCommand : Type 0 where
  stop restart : SupervisorCommand

pub record NodeRecord : Type 0 where
  pub snapshot : SupervisorNodeSnapshot
  pub command_tx : Option ℕ

-- `SupervisorRuntimeInner`, with what was put on its channels: the events broadcast and the commands
-- sent so far, each with its sender, oldest first.
pub record Runtime : Type 0 where
  pub config : SupervisionConfig
  pub nodes : Table Text NodeRecord
  pub events : List SupervisorEvent
  pub sent : List (ℕ × SupervisorCommand)

-- The messages of `anyhow::bail!` and of `anyhow!`, one constructor for each.
pub data Error : Type 0 where
  parent_not_found already_exists node_not_found no_longer_running : Text → Error
  max_children_reached : Text → ℕ → Error
  cannot_spawn : Text → SupervisorNodeKind → SupervisorNodeKind → Error
  dynamic_limit_reached : ℕ → Error
  cannot_stop_root cannot_restart_root : Error

abbrev pub root_node_id : Text
root_node_id = codes "runtime-root"

abbrev pub initial_backoff_ms : ℕ
initial_backoff_ms = 250

abbrev pub max_backoff_secs : ℕ
max_backoff_secs = 30

-- `next_backoff`, in milliseconds. `saturating_mul` saturates far above the cap, at 2^64 seconds.
unfoldable pub next_backoff : ℕ → ℕ
next_backoff current =
    let max = max_backoff_secs * 1000 in
    let doubled = current * 2 in if ltb max doubled then max else doubled

-- `char::is_ascii_alphanumeric`
unfoldable pub is_ascii_alphanumeric : ℕ → Bool
is_ascii_alphanumeric c =
    (leb b'0' c && leb c b'9') || (leb b'A' c && leb c b'Z') || (leb b'a' c && leb c b'z')

sanitize_char : ℕ → ℕ
unfolding is_ascii_alphanumeric
sanitize_char c = if is_ascii_alphanumeric c || c == b'-' || c == b'_' then c else b'_'

unfoldable pub sanitize_node_fragment : Text → Text
unfolding sanitize_char
sanitize_node_fragment [] = []
sanitize_node_fragment (c ∷ s) = sanitize_char c ∷ sanitize_node_fragment s
