-- ===== src/Capabilities/Checks.antt =====
-- src/agents/capabilities.rs: the check methods of `AgentCapabilities`.
pub mod Laws
pub mod Malformed
use puff.Common.{
  Bool, true, false, ◌||◌, Option, none, some, List, [], ◌∷◌, Text, codes, ◌++◌, any, if◌then◌else◌,
  ◌==◌, text_eq, text_beq, Result, ok, err, ◌>>=◌, ◌>>◌, guard,
}
use puff.Common.Strings.{has_part}
use puff.Errors.{
  AgentError, tool_permission_denied, write_not_allowed, sql_not_allowed, http_not_allowed,
  tools_not_allowed, agents_not_allowed, filesystem_not_allowed, url_not_listed, tool_not_listed,
  agent_not_listed, not_visible, not_under_read_only, not_under_read_write,
}
use puff.Capabilities.Types.{
  SqlCapability, HttpCapability, FsCapability, ToolCapability, AgentCapability, AgentCapabilities,
}
use puff.Capabilities.Scope.{scope_matches}
use puff.Capabilities.Paths.{path_starts_with}

abbrev pub Check : Type 0
Check = Result AgentError (Unit {0})

unfoldable pub sql_check : SqlCapability → Bool → Check
sql_check SqlCapability.read_write is_write = ok tt
sql_check SqlCapability.read_only false = ok tt
sql_check SqlCapability.read_only true =
    err (tool_permission_denied (codes "sql") write_not_allowed)
sql_check SqlCapability.none is_write = err (tool_permission_denied (codes "sql") sql_not_allowed)

unfoldable pub http_check : HttpCapability → Text → Check
http_check HttpCapability.any url = ok tt
http_check (HttpCapability.allowlist patterns) url =
    guard (any (λ p. has_part p url) patterns)
      (tool_permission_denied (codes "http") (url_not_listed url))
http_check HttpCapability.none url = err (tool_permission_denied (codes "http") http_not_allowed)

unfoldable pub tool_check : ToolCapability → Text → Check
tool_check ToolCapability.all tool_name = ok tt
tool_check (ToolCapability.specific names) tool_name =
    guard (any (λ n. n == tool_name) names)
      (tool_permission_denied tool_name (tool_not_listed tool_name))
tool_check ToolCapability.none tool_name = err (tool_permission_denied tool_name tools_not_allowed)

unfoldable pub agent_check : AgentCapability → Text → Check
agent_check AgentCapability.all agent_name = ok tt
agent_check (AgentCapability.specific names) agent_name =
    guard (any (λ n. n == agent_name) names)
      (tool_permission_denied (codes "agent") (agent_not_listed agent_name))
agent_check AgentCapability.none agent_name =
    err (tool_permission_denied (codes "agent") agents_not_allowed)

unfoldable pub fs_check : FsCapability → Text → Bool → Check
fs_check FsCapability.none path write =
    err (tool_permission_denied (codes "filesystem") filesystem_not_allowed)
fs_check (FsCapability.read_only allowed) path true =
    err (tool_permission_denied (codes "filesystem") write_not_allowed)
fs_check (FsCapability.read_only allowed) path false =
    guard (any (path_starts_with path) allowed)
      (tool_permission_denied (codes "filesystem") (not_under_read_only path))
fs_check (FsCapability.read_write allowed) path write =
    guard (any (path_starts_with path) allowed)
      (tool_permission_denied (codes "filesystem") (not_under_read_write path))

-- `unwrap_or("")`
abbrev pub scope_or_empty : Option Text → Text
scope_or_empty none = []
scope_or_empty (some scope) = scope

-- The loop over the visible scopes: whether one of them shows the target.
unfoldable pub sees : List Text → Text → Text → Bool
sees visible_scopes target_scope target_name =
    any (λ p. scope_matches p target_scope || scope_matches p target_name) visible_scopes

scope_check : List Text → Text → Option Text → Check
unfolding sees
scope_check [] target_name target_scope = ok tt
scope_check (p ∷ ps) target_name target_scope =
    guard (sees (p ∷ ps) (scope_or_empty target_scope) target_name) (
      tool_permission_denied (codes "agent:" ++ target_name)
        (not_visible target_name (scope_or_empty target_scope) (p ∷ ps)))

module _ {F64 : Type 0} (caps : AgentCapabilities F64) where
  unfoldable pub check_sql : Bool → Check
  unfolding sql_check
  check_sql is_write = sql_check caps.sql is_write

  unfoldable pub check_http : Text → Check
  unfolding http_check
  check_http url = http_check caps.http url

  unfoldable pub check_tool : Text → Check
  unfolding tool_check
  check_tool tool_name = tool_check caps.tools tool_name

  unfoldable pub check_agent : Text → Check
  unfolding agent_check
  check_agent agent_name = agent_check caps.agents agent_name

  unfoldable pub check_agent_scoped : Text → Option Text → List Text → Check
  unfolding check_agent scope_check
  check_agent_scoped target_name target_scope visible_scopes = do
    check_agent target_name
    scope_check visible_scopes target_name target_scope

  unfoldable pub check_filesystem : Text → Bool → Check
  unfolding fs_check
  check_filesystem path write = fs_check caps.filesystem path write
