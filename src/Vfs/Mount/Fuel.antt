-- ===== src/Vfs/Mount/Fuel.antt =====
-- The fuel of `vfs_mount_impl` in modules/vfs/src/mount.rs.
use sophon_rpi_cross.Base.{
  ℕ, zero, suc, ◌<◌, ◌≡◌, ap, not, Option, none, some, Outcome, done, ◌>>=◌, ◌>>◌, assert,
  if◌then◌else◌, length, arith, Bool-cases, inl, inr,
}
use sophon_rpi_cross.Base.Text.{Text, split_name, is_empty, starts_with_slash}
use sophon_rpi_cross.RamFs.Names.{length-split_name}
use sophon_rpi_cross.Vfs.Nodes.{Vfs, Node, stat}
use sophon_rpi_cross.Vfs.Paths.{child}
use sophon_rpi_cross.Vfs.Nodes.{FileSystem, mount_node}
use sophon_rpi_cross.Vfs.Mount.{mount_fuel, with_root}

-- A round of the recursion, from what the next one does.
abbrev round :
    Vfs
    → Node
    → Text
    → FileSystem
    → ℕ
    → Outcome (Option (Node × Node × Vfs))
    → Outcome (Option (Node × Node × Vfs))
round v parent path fs key inside = do
  assert (not (starts_with_slash path))
  let (entry, rest) = split_name path
  found ← stat v parent entry
  elim found [
    | some s ↦
        if s.is_dir
        then if is_empty rest then done none else inside
        else (do r ← mount_node v parent entry key; done (with_root fs r))
    | none ↦
        if is_empty rest
        then (do r ← mount_node v parent entry key; done (with_root fs r))
        else done none
  ]

-- With fuel for one more round than there are characters, more of it changes nothing.
pub mount_fuel_enough :
    (n m : ℕ) (v : Vfs) (parent : Node) (path : Text) (fs : FileSystem) (key : ℕ)
    → length path < n
    → length path < m
    → mount_fuel n v parent path fs key ≡ mount_fuel m v parent path fs key
unfolding mount_fuel
mount_fuel_enough zero m v parent path fs key h h' = absurd (omega arith)
mount_fuel_enough (suc n) zero v parent path fs key h h' = absurd (omega arith)
mount_fuel_enough (suc n) (suc m) v parent path fs key h h' =
    let (entry, rest) = split_name path in
    elim (Bool-cases (is_empty (split_name path).1)) [
      | inl y ↦ ground (arith, y)
      | inr off ↦
          let shorter = length-split_name path off in
          ap (round v parent path fs key) (
            mount_fuel_enough n m v (child parent entry) rest fs key (omega (arith, shorter))
              (omega (arith, shorter)))
    ]
