-- ===== src/Skills/Loading.antt =====
-- src/agents/skill.rs: how a skill is read, and the tools it becomes. The TOML parser, paths, files and the
-- modules of Python tools are a parameter.
pub mod Tools
use puff.Common.{
  ℕ, Bool, true, false, not, Option, none, some, List, [], ◌∷◌, ◌++◌, Text, codes, map, Result, ok,
  err, ◌>>=◌, if◌then◌else◌, ◌==◌, text_eq,
}
use mathlib.Core.Option
use puff.Common.Json.{Json, string, array, object, Items, nil, cons, Fields, end, field}
use puff.Errors.{
  AgentError, skill_load_error, command_not_allowed, toml_parse_error, cannot_read_skill,
}
use puff.Tools.{OutputFormat, json, csv, ToolExecutor, wasm, cli, noop, RegisteredTool}
use puff.Skills.{SkillPermissions, command_allowed}

pub record SkillMeta : Type 0 where
  pub name : Text
  pub description : Text
  pub version : Text
  pub tools_module : Option Text

pub record ArgDef : Type 0 where
  pub type_of : Text
  pub description : Text

pub record SkillToolToml : Type 0 where
  pub name : Text
  pub description : Text
  pub command : Option Text
  pub wasm_file : Option Text
  pub args : List (Text × ArgDef)
  pub output : Text
  pub requires_approval : Bool

pub record SkillToml : Type 0 where
  pub skill : SkillMeta
  pub tools : List SkillToolToml
  pub permissions : SkillPermissions

pub record SkillTool : Type 0 where
  pub name : Text
  pub description : Text
  pub command : Option Text
  pub wasm_path : Option Text
  pub args : List (Text × Text)
  pub output_format : OutputFormat
  pub requires_approval : Bool

pub record Skill : Type 0 where
  pub name : Text
  pub description : Text
  pub version : Text
  pub tools_module : Option Text
  pub tools : List SkillTool
  pub permissions : SkillPermissions
  pub context : Option Text
  pub source_dir : Text

pub record Host : Type 0 where
  pub parse_toml : Text → Result Text SkillToml
  pub to_lowercase : Text → Text
  pub join_path : Text → Text → Text
  pub exists : Text → Bool
  pub read_to_string : Text → Result Text Text
  pub trim : Text → Text
  pub load_python_tools_module : Text → Result AgentError (List RegisteredTool)

abbrev pub output_format_of : Text → OutputFormat
output_format_of output =
    if output == codes "json"
    then json
    else (if output == codes "csv" then csv else OutputFormat.text)

-- The properties of the schema, and the names that are required.
unfoldable pub properties_of : List (Text × Text) → Fields
properties_of [] = end
properties_of ((name, type_of) ∷ args) =
    field name (object (field (codes "type") (string type_of) end)) (properties_of args)

unfoldable pub required_of : List (Text × Text) → Items
required_of [] = nil
required_of ((name, type_of) ∷ args) = cons (string name) (required_of args)

unfoldable pub input_schema_of : List (Text × Text) → Json
unfolding properties_of required_of
input_schema_of args = object (
    field (codes "type") (string (codes "object")) (
      field (codes "properties") (object (properties_of args))
        (field (codes "required") (array (required_of args)) end)))

abbrev pub executor_of : Option Text → Option Text → OutputFormat → ToolExecutor
executor_of (some module_path) command output_format = wasm module_path
executor_of none (some command) output_format = cli command [] output_format
executor_of none none output_format = noop

unfoldable pub registered_tool : SkillTool → RegisteredTool
unfolding input_schema_of
registered_tool t = record {
  definition = record {
    name = t.name;
    description = t.description;
    input_schema = input_schema_of t.args;
  };
  executor = executor_of t.wasm_path t.command t.output_format;
  requires_approval = t.requires_approval;
  timeout_ms = 30000;
}

-- Whether the permissions refuse a tool's command, and what is said of it.
abbrev pub refusal : SkillPermissions → Text → SkillTool → Option Text → Option AgentError
refusal permissions skill t none = none
refusal permissions skill t (some command) =
    if command_allowed permissions command
    then none
    else some (skill_load_error skill (command_not_allowed t.name command))

abbrev pub unless_refused :
    Option AgentError
    → RegisteredTool
    → Result AgentError (List RegisteredTool)
    → Result AgentError (List RegisteredTool)
unless_refused (some e) r rest = err e
unless_refused none r (err e) = err e
unless_refused none r (ok rs) = ok (r ∷ rs)

unfoldable pub register_each :
    SkillPermissions → Text → List SkillTool → Result AgentError (List RegisteredTool)
unfolding registered_tool
register_each permissions skill [] = ok []
register_each permissions skill (t ∷ ts) =
    unless_refused (refusal permissions skill t t.command) (registered_tool t)
      (register_each permissions skill ts)

module _ (host : Host) where
  unfoldable pub skill_tool : Text → SkillToolToml → SkillTool
  skill_tool source_dir t = record {
    name = t.name;
    description = t.description;
    command = t.command;
    wasm_path = Option.map (host.join_path source_dir) t.wasm_file;
    args = map (λ (name, a). (name, a.type_of)) t.args;
    output_format = output_format_of (host.to_lowercase t.output);
    requires_approval = t.requires_approval;
  }

  abbrev pub skill_of : Text → SkillToml → Skill
  skill_of source_dir parsed = record {
    name = parsed.skill.name;
    description = parsed.skill.description;
    version = parsed.skill.version;
    tools_module = parsed.skill.tools_module;
    tools = map (skill_tool source_dir) parsed.tools;
    permissions = parsed.permissions;
    context = none;
    source_dir = source_dir;
  }

  abbrev pub parsed_or : Text → Result Text SkillToml → Result AgentError Skill
  parsed_or source_dir (err e) = err (skill_load_error source_dir (toml_parse_error e))
  parsed_or source_dir (ok parsed) = ok (skill_of source_dir parsed)

  unfoldable pub from_toml : Text → Text → Result AgentError Skill
  unfolding skill_tool
  from_toml toml_str source_dir = parsed_or source_dir (host.parse_toml toml_str)

  -- `.ok()`, with what is not empty when it is trimmed.
  abbrev pub context_from : Result Text Text → Option Text
  context_from (err e) = none
  context_from (ok s) = if host.trim s == [] then none else some (host.trim s)

  abbrev pub loads_context : Text → Skill → Skill
  loads_context dir skill =
      let context_path = host.join_path dir (codes "context.md") in
      if host.exists context_path
      then record skill { context = context_from (host.read_to_string context_path) }
      else skill

  abbrev pub read_or : Text → Result Text Text → Result AgentError Text
  read_or dir (err e) = err (skill_load_error dir (cannot_read_skill e))
  read_or dir (ok s) = ok s

  unfoldable pub load_from_dir : Text → Result AgentError Skill
  unfolding from_toml
  load_from_dir dir =
      read_or dir (host.read_to_string (host.join_path dir (codes "skill.toml"))) >>= λ toml_str.
      from_toml toml_str dir >>= λ skill. ok (loads_context dir skill)

  abbrev pub with_module :
      Option Text → List RegisteredTool → Result AgentError (List RegisteredTool)
  with_module none registered = ok registered
  with_module (some tools_module) registered =
      host.load_python_tools_module tools_module >>= λ more. ok (registered ++ more)

  unfoldable pub into_registered_tools : Skill → Result AgentError (List RegisteredTool)
  unfolding register_each
  into_registered_tools skill =
      register_each skill.permissions skill.name skill.tools >>= λ registered.
      with_module skill.tools_module registered
