-- ===== src/Vfs/Nodes.antt =====
-- The trait `FileSystem` of libs/vfs/src/lib.rs: a call on a node goes to the file system of the node.
pub use sophon_rpi_cross.Vfs.State.{FileSystem, rootfs, devfs, Node, Stat, MountPoint, Vfs, Drivers}
pub use sophon_rpi_cross.Vfs.RootFs.{join_path, root_node, slice}
use sophon_rpi_cross.Base.{ℕ, Option, List, Outcome, done}
use sophon_rpi_cross.Base.Text.{Text}
use sophon_rpi_cross.Vfs.RootFs.{
  rootfs_stat, rootfs_open, rootfs_read, rootfs_write, rootfs_read_dir, rootfs_mount,
}
use sophon_rpi_cross.Vfs.DevFs.{
  devfs_stat, devfs_open, devfs_read, devfs_write, devfs_read_dir, devfs_mount,
}

-- `FileSystem::stat`
unfoldable pub stat : Vfs → Node → Text → Outcome (Option Stat)
stat v parent entry = elim parent.fs [
  | rootfs ↦ rootfs_stat v parent entry
  | devfs ↦ done (devfs_stat v parent entry)
]

-- `FileSystem::open`
unfoldable pub open_node : Vfs → Node → Text → Outcome (Option Node)
open_node v parent name = elim parent.fs [
  | rootfs ↦ rootfs_open v parent name
  | devfs ↦ done (devfs_open v parent name)
]

-- `FileSystem::read`: the bytes that the buffer receives.
unfoldable pub read_node : Vfs → Drivers → Node → ℕ → ℕ → Outcome (Option (List ℕ))
read_node v drivers node offset len = elim node.fs [
  | rootfs ↦ rootfs_read v node offset len
  | devfs ↦ done (devfs_read v drivers node offset len)
]

-- `FileSystem::write`: the number of bytes written.
unfoldable pub write_node : Vfs → Drivers → Node → ℕ → List ℕ → Outcome (Option ℕ)
write_node v drivers node offset bytes = elim node.fs [
  | rootfs ↦ rootfs_write node offset bytes
  | devfs ↦ done (devfs_write v drivers node offset bytes)
]

-- `FileSystem::read_dir`
unfoldable pub read_dir : Vfs → Node → Outcome (Option (List Text))
read_dir v node = elim node.fs [
  | rootfs ↦ rootfs_read_dir v node
  | devfs ↦ done (devfs_read_dir v node)
]

-- `FileSystem::mount`
unfoldable pub mount_node : Vfs → Node → Text → ℕ → Outcome (Option (Node × Vfs))
mount_node v parent name key = elim parent.fs [
  | rootfs ↦ rootfs_mount v parent name key
  | devfs ↦ devfs_mount parent name key
]
