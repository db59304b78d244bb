-- ===== src/Vfs/Paths/Fuel.antt =====
-- The fuel of `vfs_locate_node` in modules/vfs/src/fs.rs.
use sophon_rpi_cross.Base.{
  ℕ, zero, suc, ◌<◌, ◌≡◌, ap, not, Option, none, some, Outcome, done, ◌>>=◌, ◌>>◌, assert,
  if◌then◌else◌, length, arith, Bool-cases, inl, inr,
}
use sophon_rpi_cross.Base.Text.{Text, split_name, is_empty, starts_with_slash}
use sophon_rpi_cross.RamFs.Names.{length-split_name}
use sophon_rpi_cross.Vfs.Nodes.{Vfs, Node, stat}
use sophon_rpi_cross.Vfs.Paths.{locate_fuel, locate, child, mount_point}

-- A round of the recursion, from what the next one does.
abbrev round :
    Vfs → Node → Text → (Node → Outcome (Option (Node × Text))) → Outcome (Option (Node × Text))
round v parent path next = do
  assert (not (starts_with_slash path))
  let (entry, rest) = split_name path
  found ← stat v parent entry
  elim found [
    | none ↦ done none
    | some s ↦
        let inside = next (child parent entry) in
        if is_empty rest
        then done (some (parent, entry))
        else if s.is_dir
        then inside
        else elim s.mount [
          | none ↦ done (some (parent, entry))
          | some key ↦ (do
            m ← mount_point v key
            elim m [ none ↦ done none | some mnt ↦ next mnt.root ])
        ]
  ]

-- With fuel for one more round than there are characters the recursion gives what `locate` gives,
-- also across mounts.
pub locate_fuel-locate :
    (n : ℕ) (v : Vfs) (parent : Node) (path : Text)
    → length path < n
    → locate_fuel n v parent path ≡ locate v parent path
unfolding locate locate_fuel
locate_fuel-locate n v parent path h = same n (suc (length path)) v parent path h (omega arith)
  where
    same :
        (n m : ℕ) (v : Vfs) (parent : Node) (path : Text)
        → length path < n
        → length path < m
        → locate_fuel n v parent path ≡ locate_fuel m v parent path
    same zero m v parent path h h' = absurd (omega arith)
    same (suc n) zero v parent path h h' = absurd (omega arith)
    same (suc n) (suc m) v parent path h h' = elim (Bool-cases (is_empty (split_name path).1)) [
      | inl y ↦ ground (arith, y)
      | inr off ↦
          let next : (p : Node)
              → locate_fuel n v p (split_name path).1 ≡ locate_fuel m v p (split_name path).1 =
            λ p.
              same n m v p (split_name path).1 (omega (arith, length-split_name path off))
                (omega (arith, length-split_name path off)) in
          ap (round v parent path) (λ i p. next p i)
    ]
