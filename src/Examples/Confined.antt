-- ===== src/Examples/Confined.antt =====
-- A sandbox with one writable path and an argument that looks like an option.
use puff.Common.{◌≡◌, true, false, some, [], ◌∷◌, ◌++◌, codes}
use puff.Capabilities.Types.{FsCapability, HttpCapability, AgentCapabilities, default_capabilities}
use puff.Sandbox.{bwrap_args}
use puff.Sandbox.Options.{read, mount, read-bwrap_args}

abbrev capabilities : AgentCapabilities (Unit {0})
capabilities = record default_capabilities {
  http = HttpCapability.none;
  filesystem = FsCapability.read_write (codes "/work" ∷ codes "--share-net" ∷ []);
}

read-bwrap_args_example :
    read (bwrap_args true false capabilities (codes "--bind") (codes "--share-net" ∷ []))
    ≡ some (record {
      isolated = true;
      shares_net = false;
      mounts =
          mount false (codes "/usr")
            ∷ mount false (codes "/bin")
            ∷ (mount false (codes "/lib") ∷ [])
          ++ (mount true (codes "/work") ∷ mount true (codes "--share-net") ∷ [])
          ++ [];
      fresh = codes "/tmp" ∷ codes "/proc" ∷ codes "/dev" ∷ [];
      command = codes "--bind" ∷ codes "--share-net" ∷ [];
    })
read-bwrap_args_example =
    read-bwrap_args true false capabilities (codes "--bind") (codes "--share-net" ∷ [])
