-- ===== src/Capabilities/Types.antt =====
-- src/agents/capabilities.rs: the capabilities and their defaults. A path (`PathBuf`) is kept as its
-- text, and `F64` stands for the type of the floating-point numbers.
use puff.Common.{ℕ, Option, List, Text}

pub data SqlCapability : Type 0 where
  none read_only read_write : SqlCapability

pub data HttpCapability : Type 0 where
  none any : HttpCapability
  allowlist : List Text → HttpCapability

pub data FsCapability : Type 0 where
  none : FsCapability
  read_only read_write : List Text → FsCapability

pub data ToolCapability : Type 0 where
  none all : ToolCapability
  specific : List Text → ToolCapability

pub data AgentCapability : Type 0 where
  none all : AgentCapability
  specific : List Text → AgentCapability

pub record BudgetCapability (F64 : Type 0) : Type 0 where
  pub max_input_tokens : Option ℕ
  pub max_output_tokens : Option ℕ
  pub max_cost_usd : Option F64
  pub max_tool_calls : Option ℕ
  pub max_tool_cpu_seconds : Option F64

-- `BudgetCapability::default`
abbrev pub unlimited : {F64 : Type 0} → BudgetCapability F64
unlimited = record {
  max_input_tokens = Option.none;
  max_output_tokens = Option.none;
  max_cost_usd = Option.none;
  max_tool_calls = Option.none;
  max_tool_cpu_seconds = Option.none;
}

pub record AgentCapabilities (F64 : Type 0) : Type 0 where
  pub sql : SqlCapability
  pub http : HttpCapability
  pub filesystem : FsCapability
  pub tools : ToolCapability
  pub agents : AgentCapability
  pub budget : BudgetCapability F64

-- `AgentCapabilities::default`
abbrev pub default_capabilities : {F64 : Type 0} → AgentCapabilities F64
default_capabilities = record {
  sql = SqlCapability.read_write;
  http = HttpCapability.any;
  filesystem = FsCapability.none;
  tools = ToolCapability.all;
  agents = AgentCapability.all;
  budget = unlimited;
}
