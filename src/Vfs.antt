-- ===== src/Vfs.antt =====
-- modules/vfs, libs/vfs and modules/dev: the file systems, the mount table and the system calls on
-- files.
pub mod State
pub mod RootFs
pub mod DevFs
pub mod Nodes
pub mod Paths
pub mod Mount
pub mod Cwd
pub mod Segments
pub mod Files
