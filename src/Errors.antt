-- ===== src/Errors.antt =====
-- src/agents/error.rs: `AgentError`. A text that the program formats is a constructor of `Message` with
-- the values that it is formatted from; a text from elsewhere is `Message.text`.
use puff.Common.{ℕ, Option, List, Text}
use puff.Common.Json.{Json}

pub data Message : Type 0 where
  text : Text → Message
  -- capabilities.rs
  write_not_allowed sql_not_allowed http_not_allowed tools_not_allowed agents_not_allowed : Message
  filesystem_not_allowed : Message
  url_not_listed tool_not_listed agent_not_listed : Text → Message
  not_visible : Text → Text → List Text → Message
  not_under_read_only not_under_read_write : Text → Message
  -- quota.rs
  quota_closed : Text → Message
  -- orchestration.rs
  no_visible_agents : Text → List Text → Message
  not_an_integer : Text → Text → Message
  out_of_bounds : Text → ℕ → ℕ → Message
  chain_without_agents parallel_without_agents : Text → Message
  max_rounds_exceeded : Message
  -- agent.rs
  tool_rounds_exceeded tool_rounds_exceeded_native : Text → ℕ → Message
  -- tool.rs
  empty_command null_argument : Message
  not_an_object : Json → Message
  arguments_required unclosed_placeholder missing_argument : Text → Message
  -- skill.rs
  command_not_allowed : Text → Text → Message
  toml_parse_error cannot_read_skill : Text → Message
  -- sandbox.rs
  bubblewrap_not_found spawn_failed sandbox_spawn_failed : Text → Message

pub data AgentError : Type 0 where
  llm_error llm_provider_unavailable llm_stream_interrupted : Message → AgentError
  llm_rate_limited : Text → Option ℕ → AgentError
  tool_execution_error : Text → Message → AgentError
  tool_not_found : Text → AgentError
  tool_permission_denied : Text → Message → AgentError
  tool_timeout : Text → ℕ → AgentError
  memory_error conversation_not_found orchestration_error : Message → AgentError
  skill_load_error : Text → Message → AgentError
  config_error python_error : Message → AgentError
  budget_exceeded : Text → ℕ → ℕ → AgentError
