-- ===== src/Vfs/RootFs.antt =====
-- modules/vfs/src/rootfs.rs: the root file system, which is a file tree in memory.
use sophon_rpi_cross.Base.{
  ℕ, ◌+◌, ◌-◌, min, true, false, Option, none, some, List, [], ◌∷◌, ◌++◌, Outcome, done, panic,
  explicit, ◌>>=◌, ◌>>◌, assert, unwrap, if◌then◌else◌, length, take, drop, leb,
}
use sophon_rpi_cross.Base.Text.{Text, text, slash, is_empty}
use sophon_rpi_cross.RamFs.{Entry, as_file, as_dir, as_mnt, entries, ramfs_get, ramfs_mount}
use sophon_rpi_cross.Vfs.State.{FileSystem, rootfs, Node, Stat, Vfs}

-- `format!("{}/{}", parent.path, file)`
abbrev pub join_path : Text → Text → Text
join_path parent file = parent ++ slash ∷ file

-- `RootFS::root_node`
abbrev pub root_node : Node
root_node = record {
  name = slash ∷ [];
  path = [];
  fs = rootfs;
  mount = none;
  block = 0;
  offset = 0;
}

-- `RootFS::init`: only the first call has an effect.
unfoldable pub init : Entry → Vfs → Outcome Vfs
init ramfs v = if v.is_initialized then done v else do
  etc ← ramfs_get ramfs (text "/etc")
  _ ← unwrap etc
  done (record v {
    is_initialized = true;
    ramfs = ramfs;
    file_systems = (text "rootfs", rootfs) ∷ v.file_systems;
  })

abbrev stat_of : Entry → Stat
stat_of e = record {
  fs = rootfs;
  mount = as_mnt e;
  is_dir = elim (as_dir e) [ none ↦ false | some d ↦ true ];
}

-- `RootFS::stat`
abbrev pub rootfs_stat : Vfs → Node → Text → Outcome (Option Stat)
rootfs_stat v parent entry = do
  assert v.is_initialized
  e ← ramfs_get v.ramfs (join_path parent.path entry)
  done (elim e [ none ↦ none | some x ↦ some (stat_of x) ])

abbrev pub opened : FileSystem → Text → Text → Option ℕ → Node
opened fs name path mount = record {
  name = name;
  path = path;
  fs = fs;
  mount = mount;
  block = 0;
  offset = 0;
}

-- `RootFS::open`
abbrev pub rootfs_open : Vfs → Node → Text → Outcome (Option Node)
rootfs_open v parent name = do
  let path = join_path parent.path name
  e ← ramfs_get v.ramfs path
  done (elim e [ none ↦ none | some x ↦ some (opened rootfs name path (as_mnt x)) ])

-- What `RootFS::read` copies into a buffer of `len` bytes.
abbrev pub slice : List ℕ → ℕ → ℕ → List ℕ
slice bytes offset len =
    if leb (length bytes) offset
    then []
    else take (min (length bytes) (offset + len) - offset) (drop offset bytes)

-- `entry.as_file()` of what `get` found.
abbrev file_of : Option Entry → Option (List ℕ)
file_of none = none
file_of (some e) = as_file e

abbrev entries_of : Option Entry → Option (List Text)
entries_of none = none
entries_of (some e) = elim (as_dir e) [ none ↦ none | some d ↦ some (entries d) ]

-- `RootFS::read`
abbrev pub rootfs_read : Vfs → Node → ℕ → ℕ → Outcome (Option (List ℕ))
rootfs_read v node offset len = do
  e ← ramfs_get v.ramfs node.path
  done (elim (file_of e) [ none ↦ none | some bytes ↦ some (slice bytes offset len) ])

-- `RootFS::write` is `unimplemented!()`.
abbrev pub rootfs_write : Node → ℕ → List ℕ → Outcome (Option ℕ)
rootfs_write node offset bytes = panic explicit

-- `RootFS::read_dir`
abbrev pub rootfs_read_dir : Vfs → Node → Outcome (Option (List Text))
rootfs_read_dir v node = do
  e ← ramfs_get v.ramfs (if is_empty node.path then slash ∷ [] else node.path)
  done (entries_of e)

-- `RootFS::mount`
abbrev pub rootfs_mount : Vfs → Node → Text → ℕ → Outcome (Option (Node × Vfs))
rootfs_mount v parent name key = do
  let path = join_path parent.path name
  r ← ramfs_mount v.ramfs path key
  done (elim r [
    | none ↦ none
    | some ramfs ↦ some (opened rootfs name path (some key), record v { ramfs = ramfs })
  ])
