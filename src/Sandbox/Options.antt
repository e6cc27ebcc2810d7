-- ===== src/Sandbox/Options.antt =====
-- The sandbox that `bwrap` reads from its arguments.
use mathlib.Core.Option
use puff.Common.{
  Bool, true, false, ◌≡◌, refl, Option, none, some, List, [], ◌∷◌, ◌++◌, map, Text, codes,
  if◌then◌else◌, ◌==◌, text_eq, text_beq,
}
use puff.Capabilities.Types.{FsCapability, HttpCapability, AgentCapabilities}
use puff.Sandbox.{bind_each, filesystem_args, network_args, library_args, bwrap_args, fixed_args}

-- A path of the host, the path where the sandbox has it, and whether it may be written.
pub record Mount : Type 0 where
  pub source : Text
  pub target : Text
  pub writable : Bool

-- What a command line of `bwrap` asks for, as its manual says: `--unshare-all` and `--share-net`, the
-- mounts, the fresh file systems, and the command after `--`.
pub record Sandboxed : Type 0 where
  pub isolated : Bool
  pub shares_net : Bool
  pub mounts : List Mount
  pub fresh : List Text
  pub command : List Text

pub data Kind : Type 0 where
  ro_bind bind fresh_at isolate share die ends other : Kind

abbrev kind : Text → Kind
kind o =
    if o == codes "--ro-bind"
    then ro_bind
    else if o == codes "--bind"
    then bind
    else if o == codes "--tmpfs"
    then fresh_at
    else if o == codes "--proc"
    then fresh_at
    else if o == codes "--dev"
    then fresh_at
    else if o == codes "--unshare-all"
    then isolate
    else if o == codes "--share-net"
    then share
    else if o == codes "--die-with-parent"
    then die
    else if o == codes "--"
    then ends
    else other

abbrev isolating : Sandboxed → Sandboxed
isolating s = record s { isolated = true }

abbrev sharing : Sandboxed → Sandboxed
sharing s = record s { shares_net = true }

abbrev with_fresh : Text → Sandboxed → Sandboxed
with_fresh path s = record s { fresh = path ∷ s.fresh }

abbrev running : List Text → Sandboxed
running command = record {
  isolated = false;
  shares_net = false;
  mounts = [];
  fresh = [];
  command = command;
}

abbrev with_mount : Mount → Sandboxed → Sandboxed
with_mount m s = record s { mounts = m ∷ s.mounts }

-- The options are read from the left, and an option takes the arguments behind it whatever they are.
pub read : List Text → Option Sandboxed
unfolding text_beq
read [] = none
read (o ∷ []) = none
read (o ∷ x ∷ []) = elim (kind o) [
  | isolate ↦ Option.map isolating (read (x ∷ []))
  | share ↦ Option.map sharing (read (x ∷ []))
  | die ↦ read (x ∷ [])
  | ends ↦ some (running (x ∷ []))
  | _ ↦ none
]
read (o ∷ x ∷ y ∷ more) = elim (kind o) [
  | isolate ↦ Option.map isolating (read (x ∷ y ∷ more))
  | share ↦ Option.map sharing (read (x ∷ y ∷ more))
  | die ↦ read (x ∷ y ∷ more)
  | ends ↦ some (running (x ∷ y ∷ more))
  | fresh_at ↦ Option.map (with_fresh x) (read (y ∷ more))
  | ro_bind ↦
      Option.map (with_mount (record { source = x; target = y; writable = false })) (read more)
  | bind ↦ Option.map (with_mount (record { source = x; target = y; writable = true })) (read more)
  | other ↦ none
]

abbrev pub mount : Bool → Text → Mount
mount writable path = record { source = path; target = path; writable = writable }

-- The mounts that the capabilities name.
abbrev pub mounts_of : FsCapability → List Mount
mounts_of FsCapability.none = []
mounts_of (FsCapability.read_only paths) = map (mount false) paths
mounts_of (FsCapability.read_write paths) = map (mount true) paths

-- Some capability for requests shares the network.
abbrev pub reaches_net : HttpCapability → Bool
reaches_net HttpCapability.none = false
reaches_net HttpCapability.any = true
reaches_net (HttpCapability.allowlist patterns) = true

abbrev pub library_mount : Bool → Text → List Mount
library_mount there path = if there then mount false path ∷ [] else []

abbrev before : List Mount → Sandboxed → Sandboxed
before mounts s = record s { mounts = mounts ++ s.mounts }

binds_read_only :
    (paths rest : List Text) (s : Sandboxed)
    → read rest ≡ some s
    → read (bind_each (codes "--ro-bind") paths ++ rest) ≡ some (before (map (mount false) paths) s)
unfolding read bind_each
binds_read_only [] rest s h = h
binds_read_only (p ∷ ps) rest s h = rw (binds_read_only ps rest s h) refl

binds_writable :
    (paths rest : List Text) (s : Sandboxed)
    → read rest ≡ some s
    → read (bind_each (codes "--bind") paths ++ rest) ≡ some (before (map (mount true) paths) s)
unfolding read bind_each
binds_writable [] rest s h = h
binds_writable (p ∷ ps) rest s h = rw (binds_writable ps rest s h) refl

reads_filesystem :
    (fs : FsCapability) (rest : List Text) (s : Sandboxed)
    → read rest ≡ some s
    → read (filesystem_args fs ++ rest) ≡ some (before (mounts_of fs) s)
unfolding filesystem_args
reads_filesystem FsCapability.none rest s h = h
reads_filesystem (FsCapability.read_only paths) rest s h = binds_read_only paths rest s h
reads_filesystem (FsCapability.read_write paths) rest s h = binds_writable paths rest s h

reads_network :
    (http : HttpCapability) (program : Text) (args : List Text)
    → read (network_args http ++ (codes "--" ∷ program ∷ args))
      ≡ some (record (running (program ∷ args)) { shares_net = reaches_net http })
unfolding read network_args
reads_network HttpCapability.none program [] = refl
reads_network HttpCapability.none program (a ∷ args) = refl
reads_network HttpCapability.any program [] = refl
reads_network HttpCapability.any program (a ∷ args) = refl
reads_network (HttpCapability.allowlist patterns) program [] = refl
reads_network (HttpCapability.allowlist patterns) program (a ∷ args) = refl

reads_library :
    (there : Bool) (path : Text) (rest : List Text) (s : Sandboxed)
    → read rest ≡ some s
    → read (library_args there path ++ rest) ≡ some (before (library_mount there path) s)
unfolding read library_args
reads_library true path rest s h = rw h refl
reads_library false path rest s h = h

reads_fixed :
    (rest : List Text) (s : Sandboxed)
    → read rest ≡ some s
    → read (fixed_args ++ rest)
      ≡ some (record s {
        isolated = true;
        mounts = mount false (codes "/usr") ∷ mount false (codes "/bin") ∷ s.mounts;
        fresh = codes "/tmp" ∷ codes "/proc" ∷ codes "/dev" ∷ s.fresh;
      })
unfolding read
reads_fixed [] s h = cc
reads_fixed (x ∷ rest) s h = rw h refl

-- Whatever the paths of the capabilities, the program and its arguments are, the command line gives
-- an isolated sandbox that runs that program with those arguments, has the network exactly where the
-- capabilities allow some requests, and has the system's directories read-only and each path of the
-- capabilities as they allow it, and no other.
pub read-bwrap_args :
    {F64 : Type 0} (lib lib64 : Bool) (capabilities : AgentCapabilities F64) (program : Text)
    (args : List Text)
    → read (bwrap_args lib lib64 capabilities program args)
      ≡ some (record {
        isolated = true;
        shares_net = reaches_net capabilities.http;
        mounts =
            mount false (codes "/usr")
            ∷ mount false (codes "/bin")
            ∷ (library_mount lib (codes "/lib")
                ++ (library_mount lib64 (codes "/lib64")
                    ++ (mounts_of capabilities.filesystem ++ [])));
        fresh = codes "/tmp" ∷ codes "/proc" ∷ codes "/dev" ∷ [];
        command = program ∷ args;
      })
unfolding bwrap_args
read-bwrap_args lib lib64 capabilities program args = reads_fixed _ _ (
    reads_library lib (codes "/lib") _ _ (
      reads_library lib64 (codes "/lib64") _ _ (
        reads_filesystem capabilities.filesystem _ _
          (reads_network capabilities.http program args))))
