-- ===== src/Vfs/Mount.antt =====
-- modules/vfs/src/mount.rs: the mount table.
pub mod Fuel
use sophon_rpi_cross.Base.{
  ℕ, zero, suc, ◌+◌, not, Option, none, some, List, [], ◌∷◌, Outcome, done, panic, explicit, ◌>>=◌,
  ◌>>◌, assert, if◌then◌else◌, length, set,
}
use sophon_rpi_cross.Base.Text.{Text, text_eq, slash, is_empty, split_name, starts_with_slash}
use sophon_rpi_cross.Vfs.Nodes.{Vfs, Node, MountPoint, FileSystem, root_node, stat, mount_node}
use sophon_rpi_cross.Vfs.Paths.{child}

-- The node that was mounted, and the root of what is mounted there.
abbrev pub with_root : FileSystem → Option (Node × Vfs) → Option (Node × Node × Vfs)
with_root fs none = none
with_root fs (some (parent, v)) = some (parent, record parent { mount = none; fs = fs }, v)

-- `vfs_mount_impl`, with fuel for the recursion on the rest of the path.
unfoldable pub mount_fuel :
    ℕ → Vfs → Node → Text → FileSystem → ℕ → Outcome (Option (Node × Node × Vfs))
mount_fuel zero v parent path fs key = panic explicit
mount_fuel (suc n) v parent path fs key = do
  assert (not (starts_with_slash path))
  let (entry, rest) = split_name path
  found ← stat v parent entry
  elim found [
    | some s ↦
        let inside = mount_fuel n v (child parent entry) rest fs key in
        if s.is_dir
        then if is_empty rest then done none else inside
        else (do r ← mount_node v parent entry key; done (with_root fs r))
    | none ↦
        if is_empty rest
        then (do r ← mount_node v parent entry key; done (with_root fs r))
        else done none
  ]

-- The first free slot of the table.
unfoldable pub free_slot : ℕ → List (Option MountPoint) → Option ℕ
free_slot i [] = none
free_slot i (none ∷ ms) = some i
free_slot i (some m ∷ ms) = free_slot (i + 1) ms

abbrev recorded : ℕ → ℕ → FileSystem → Option (Node × Node × Vfs) → Option (Node × Vfs)
recorded i dev fs none = none
recorded i dev fs (some (parent, root, v)) =
    let m : MountPoint = record { parent = parent; root = root; dev = dev; fs = fs } in
    some (root, record v { mount_points = set v.mount_points i (some m) })

-- `vfs_mount`
unfoldable pub vfs_mount : Vfs → Text → ℕ → FileSystem → Outcome (Option (Node × Vfs))
unfolding mount_fuel free_slot
vfs_mount v path dev fs = do
  assert (starts_with_slash path)
  if text_eq path (slash ∷ []) then done none else elim (free_slot 0 v.mount_points) [
    | none ↦ done none
    | some i ↦ (do
      r ← mount_fuel (suc (length path)) v root_node (split_name path).1 fs i
      done (recorded i dev fs r))
  ]
