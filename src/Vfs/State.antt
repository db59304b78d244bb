-- ===== src/Vfs/State.antt =====
-- The state of modules/vfs and modules/dev, with the nodes of libs/vfs/src/lib.rs.
use sophon_rpi_cross.Base.{ℕ, Bool, Option, List}
use sophon_rpi_cross.Base.Text.{Text}
use sophon_rpi_cross.RamFs.{Entry}

-- `&'static dyn FileSystem`
pub data FileSystem : Type 0 where
  rootfs devfs : FileSystem

pub record Node : Type 0 where
  pub name : Text
  pub path : Text
  pub fs : FileSystem
  pub mount : Option ℕ
  pub block : ℕ
  pub offset : ℕ

pub record Stat : Type 0 where
  pub fs : FileSystem
  pub mount : Option ℕ
  pub is_dir : Bool

pub record MountPoint : Type 0 where
  pub parent : Node
  pub root : Node
  pub dev : ℕ
  pub fs : FileSystem

-- `ROOT_FS`, `MOUNT_POINTS`, `FILE_SYSTEMS`, and the names of the devices of `DEV_FS`.
pub record Vfs : Type 0 where
  pub ramfs : Entry
  pub is_initialized : Bool
  pub mount_points : List (Option MountPoint)
  pub file_systems : List (Text × FileSystem)
  pub devices : List Text

-- A device is reached through its driver: what a read of so many bytes, or a write, returns.
pub record Drivers : Type 0 where
  pub read : Text → ℕ → ℕ → Option (List ℕ)
  pub write : Text → ℕ → List ℕ → Option ℕ
