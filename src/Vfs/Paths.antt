-- ===== src/Vfs/Paths.antt =====
-- modules/vfs/src/fs.rs: from a path to a node.
pub mod Fuel
use sophon_rpi_cross.Base.{
  ℕ, zero, suc, Bool, true, false, not, Option, none, some, [], ◌∷◌, Outcome, done, panic, explicit,
  index_out_of_range, ◌>>=◌, ◌>>◌, assert, if◌then◌else◌, length, get_elem?,
}
use sophon_rpi_cross.Base.Text.{
  Text, text_eq, slash, is_empty, split_name, starts_with_slash, ends_with_slash, drop_last, trim,
  strip_prefix_slash,
}
use sophon_rpi_cross.Vfs.Nodes.{Vfs, Node, MountPoint, root_node, join_path, stat, open_node}

-- `mount_points[key].as_ref()`
unfoldable pub mount_point : Vfs → ℕ → Outcome (Option MountPoint)
mount_point v key = elim (get_elem? v.mount_points key) [
  | none ↦ panic index_out_of_range
  | some m ↦ done m
]

-- The node of a directory, from that of its parent.
abbrev pub child : Node → Text → Node
child parent entry = record parent { name = entry; path = join_path parent.path entry }

-- `vfs_locate_node`, with fuel for the recursion on the rest of the path.
unfoldable pub locate_fuel : ℕ → Vfs → Node → Text → Outcome (Option (Node × Text))
locate_fuel zero v parent path = panic explicit
locate_fuel (suc n) v parent path = do
  assert (not (starts_with_slash path))
  let (entry, rest) = split_name path
  found ← stat v parent entry
  elim found [
    | none ↦ done none
    | some s ↦
        let inside = locate_fuel n v (child parent entry) rest in
        if is_empty rest
        then done (some (parent, entry))
        else if s.is_dir
        then inside
        else elim s.mount [
          | none ↦ done (some (parent, entry))
          | some key ↦ (do
            m ← mount_point v key
            elim m [ none ↦ done none | some mnt ↦ locate_fuel n v mnt.root rest ])
        ]
  ]

-- Each round takes at least the slash off the path.
unfoldable pub locate : Vfs → Node → Text → Outcome (Option (Node × Text))
unfolding locate_fuel
locate v parent path = locate_fuel (suc (length path)) v parent path

-- What `vfs_open` and `vfs_locate_node_from_path` make of the path first.
unfoldable pub trim_slashes : Text → Text
trim_slashes p =
    let a = trim p in
    let b = if ends_with_slash a then drop_last a else a in
    elim (strip_prefix_slash b) [ none ↦ b | some rest ↦ rest ]

unfoldable pub vfs_locate_node_from_path : Vfs → Text → Outcome (Option (Node × Text))
unfolding trim_slashes locate
vfs_locate_node_from_path v path = do
  assert (starts_with_slash path)
  locate v root_node (trim_slashes path)

unfoldable pub vfs_open : Vfs → Text → Outcome (Option Node)
unfolding trim_slashes locate
vfs_open v path =
    if not (starts_with_slash path)
    then done none
    else if text_eq path (slash ∷ [])
    then done (some root_node)
    else do
      r ← locate v root_node (trim_slashes path)
      elim r [ none ↦ done none | some (parent, entry) ↦ open_node v parent entry ]

unfoldable pub dir_or_mnt_exists : Vfs → Text → Outcome Bool
unfolding vfs_locate_node_from_path
dir_or_mnt_exists v path = do
  r ← vfs_locate_node_from_path v path
  elim r [
    | none ↦ done false
    | some (parent, entry) ↦ (do
      s ← stat v parent entry
      done (elim s [
        | none ↦ false
        | some st ↦ if st.is_dir then true else (elim st.mount [ none ↦ false | some m ↦ true ])
      ]))
  ]
