-- ===== src/Tools/Execute.antt =====
-- `execute_registered_tool` of src/agents/tool.rs. What runs Python, WebAssembly, GraphQL and the agents'
-- registry is a parameter, and so is the operating system.
use mathlib.Core.Option
use puff.Common.{ℕ, Option, none, some, List, [], ◌++◌, Text, codes, Result, ok, err}
use puff.Common.Json.{Json, get, as_str}
use puff.Errors.{AgentError}
use puff.Capabilities.Types.{AgentCapabilities}
use puff.Sandbox.{Host, execute_sandboxed_argv, default_sandbox}
use puff.Tools.{
  ToolExecutor, python, cli, wasm, graphql, graphql_schema, graphql_validate, registry_message,
  registry_scan, noop, RegisteredTool, render_cli_command,
}

pub record Executors : Type 1 where
  pub host : Host
  -- The text of a JSON value.
  pub show : Json → Text
  pub execute_python_tool : Text → Text → Json → host.World → Result AgentError Text × host.World
  pub execute_wasm_tool : Text → Text → ℕ → host.World → Result AgentError Text × host.World
  pub execute_graphql_query :
      Text → Option Json → Option Text → host.World → Result AgentError Text × host.World
  pub generate_schema_summary : Option Text → host.World → Result AgentError Text × host.World
  pub validate_graphql_query : Text → Option Text → host.World → Result AgentError Text × host.World
  pub execute_registry_message_tool : Text → Text → host.World → Result AgentError Text × host.World
  pub execute_registry_scan_tool : Option Text → host.World → Result AgentError Text × host.World

-- `arguments.get(key).and_then(as_str)`
unfoldable pub str_argument : Json → Text → Option Text
unfolding get as_str
str_argument arguments key = Option.bind (get arguments key) as_str

-- `unwrap_or("")`
abbrev pub or_empty : Option Text → Text
or_empty none = []
or_empty (some s) = s

-- `get("target").or_else(|| get("agent"))`
unfoldable pub target_argument : Json → Option Json
target_argument arguments = elim (get arguments (codes "target")) [
  | none ↦ get arguments (codes "agent")
  | some value ↦ some value
]

module _ {F64 : Type 0} (x : Executors) where
  -- A command runs only if it could be rendered.
  unfoldable pub run_rendered :
      Result AgentError (Text × List Text)
      → AgentCapabilities F64
      → ℕ
      → x.host.World
      → Result AgentError Text × x.host.World
  run_rendered (err e) capabilities timeout_ms w = (err e, w)
  run_rendered (ok (program, args)) capabilities timeout_ms w =
      execute_sandboxed_argv x.host program args capabilities timeout_ms default_sandbox w

  unfoldable pub execute_with :
      ToolExecutor
      → RegisteredTool
      → Json
      → AgentCapabilities F64
      → x.host.World
      → Result AgentError Text × x.host.World
  unfolding str_argument target_argument run_rendered
  execute_with (python module_name function) tool arguments capabilities w =
      x.execute_python_tool module_name function arguments w
  execute_with (cli command args_template output_format) tool arguments capabilities w =
      run_rendered (render_cli_command x.show tool.definition.name command args_template arguments)
        capabilities tool.timeout_ms w
  execute_with (wasm module_path) tool arguments capabilities w =
      x.execute_wasm_tool module_path (x.show arguments) tool.timeout_ms w
  execute_with (graphql schema_name) tool arguments capabilities w =
      x.execute_graphql_query (or_empty (str_argument arguments (codes "query")))
        (get arguments (codes "variables")) schema_name w
  execute_with (graphql_schema schema_name) tool arguments capabilities w =
      x.generate_schema_summary schema_name w
  execute_with (graphql_validate schema_name) tool arguments capabilities w =
      x.validate_graphql_query (or_empty (str_argument arguments (codes "query"))) schema_name w
  execute_with registry_message tool arguments capabilities w =
      x.execute_registry_message_tool (or_empty (Option.bind (target_argument arguments) as_str))
        (or_empty (str_argument arguments (codes "message"))) w
  execute_with registry_scan tool arguments capabilities w =
      x.execute_registry_scan_tool (str_argument arguments (codes "prefix")) w
  execute_with noop tool arguments capabilities w =
      (ok (codes "Tool '" ++ tool.definition.name ++ codes "' completed (no-op)"), w)

  unfoldable pub execute_registered_tool :
      RegisteredTool
      → Json
      → AgentCapabilities F64
      → x.host.World
      → Result AgentError Text × x.host.World
  unfolding execute_with
  execute_registered_tool tool arguments capabilities w =
      execute_with tool.executor tool arguments capabilities w
