-- ===== src/Sandbox.antt =====
-- src/agents/sandbox.rs, and `execute_cli_argv` of src/agents/tool.rs: how a command runs. The operating
-- system is a parameter: which paths exist, and what becomes of a process.
pub mod Options
use puff.Common.{
  ℕ, Bool, true, false, not, List, [], ◌∷◌, ◌++◌, Text, codes, if◌then◌else◌, Result, ok, err,
}
use puff.Errors.{
  AgentError, tool_timeout, tool_execution_error, text, bubblewrap_not_found, spawn_failed,
  sandbox_spawn_failed,
}
use puff.Capabilities.Types.{FsCapability, HttpCapability, AgentCapabilities}

-- The end of a process: the time is over, it could not be started, or it exited; a text is that of the
-- error, of stdout or of stderr.
pub data ProcessOutcome : Type 0 where
  timed_out : ProcessOutcome
  not_started : Text → ProcessOutcome
  exited : Bool → Text → Text → ProcessOutcome

pub record Host : Type 1 where
  pub World : Type 0
  pub exists : Text → World → Bool
  pub run : Text → List Text → ℕ → World → ProcessOutcome × World

pub record SandboxConfig : Type 0 where
  pub enabled : Bool
  pub bwrap_path : Text
  pub fallback_unsandboxed : Bool

abbrev pub default_sandbox : SandboxConfig
default_sandbox = record {
  enabled = true;
  bwrap_path = codes "/usr/bin/bwrap";
  fallback_unsandboxed = true;
}

-- `--ro-bind p p` or `--bind p p` for each path.
unfoldable pub bind_each : Text → List Text → List Text
bind_each option [] = []
bind_each option (p ∷ ps) = option ∷ p ∷ p ∷ bind_each option ps

unfoldable pub filesystem_args : FsCapability → List Text
unfolding bind_each
filesystem_args (FsCapability.read_only paths) = bind_each (codes "--ro-bind") paths
filesystem_args (FsCapability.read_write paths) = bind_each (codes "--bind") paths
filesystem_args FsCapability.none = []

unfoldable pub network_args : HttpCapability → List Text
network_args HttpCapability.none = []
network_args HttpCapability.any = codes "--share-net" ∷ []
network_args (HttpCapability.allowlist patterns) = codes "--share-net" ∷ []

-- The arguments that do not depend on the agent.
abbrev pub fixed_args : List Text
fixed_args =
    codes "--unshare-all"
    ∷ codes "--die-with-parent"
    ∷ codes "--ro-bind"
    ∷ codes "/usr"
    ∷ codes "/usr"
    ∷ codes "--ro-bind"
    ∷ codes "/bin"
    ∷ codes "/bin"
    ∷ codes "--tmpfs"
    ∷ codes "/tmp"
    ∷ codes "--proc"
    ∷ codes "/proc"
    ∷ codes "--dev"
    ∷ codes "/dev"
    ∷ []

-- A library directory, where the host has it.
unfoldable pub library_args : Bool → Text → List Text
library_args there path = if there then codes "--ro-bind" ∷ path ∷ path ∷ [] else []

module _ {F64 : Type 0} where
  -- The arguments of `bwrap`, where the host has `/lib` and `/lib64` or not.
  unfoldable pub bwrap_args : Bool → Bool → AgentCapabilities F64 → Text → List Text → List Text
  unfolding library_args filesystem_args network_args
  bwrap_args lib lib64 capabilities program args =
      fixed_args
      ++ (library_args lib (codes "/lib")
          ++ (library_args lib64 (codes "/lib64")
              ++ (filesystem_args capabilities.filesystem
                  ++ (network_args capabilities.http ++ (codes "--" ∷ program ∷ args)))))

-- `String::from_utf8_lossy(stdout)` or an error of the program, with this message if it did not start.
unfoldable pub outcome : Text → ℕ → (Text → AgentError) → ProcessOutcome → Result AgentError Text
outcome program timeout_ms no_start timed_out = err (tool_timeout program timeout_ms)
outcome program timeout_ms no_start (not_started why) = err (no_start why)
outcome program timeout_ms no_start (exited true stdout stderr) = ok stdout
outcome program timeout_ms no_start (exited false stdout stderr) =
    err (tool_execution_error program (text stderr))

module _ (h : Host) where
  unfoldable pub check_bwrap_available : SandboxConfig → h.World → Bool
  check_bwrap_available config w =
      if not config.enabled then false else h.exists config.bwrap_path w

  unfoldable pub execute_cli_argv :
      Text → List Text → ℕ → h.World → Result AgentError Text × h.World
  unfolding outcome
  execute_cli_argv program args timeout_ms w =
      let (end, w') = h.run program args timeout_ms w in
      (outcome program timeout_ms (λ why. tool_execution_error program (spawn_failed why)) end, w')

  module _ {F64 : Type 0} where
    unfoldable pub execute_sandboxed_argv :
        Text
        → List Text
        → AgentCapabilities F64
        → ℕ
        → SandboxConfig
        → h.World
        → Result AgentError Text × h.World
    unfolding execute_cli_argv bwrap_args outcome
    execute_sandboxed_argv program args capabilities timeout_ms config w =
        if not config.enabled
        then execute_cli_argv program args timeout_ms w
        else if not (h.exists config.bwrap_path w)
        then (if config.fallback_unsandboxed
            then execute_cli_argv program args timeout_ms w
            else (err (tool_execution_error program (bubblewrap_not_found config.bwrap_path)), w))
        else (let (end, w') =
              h.run config.bwrap_path
                (bwrap_args (h.exists (codes "/lib") w) (h.exists (codes "/lib64") w) capabilities
                  program args)
                timeout_ms w in
            (
              outcome program timeout_ms
                  (λ why. tool_execution_error program (sandbox_spawn_failed why)) end,
              w',
            ))
