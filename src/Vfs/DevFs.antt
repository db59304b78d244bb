-- ===== src/Vfs/DevFs.antt =====
-- modules/dev/src/lib.rs: the file system of devices. `DevFS` keeps its devices in a `BTreeMap`:
-- `devices` lists their names in order.
use sophon_rpi_cross.Base.{
  ℕ, Bool, true, false, Option, none, some, List, [], ◌∷◌, Outcome, done, panic, explicit, ◌>>◌,
  assert, if◌then◌else◌,
}
use sophon_rpi_cross.Base.Text.{Text, text, text_eq, less}
use sophon_rpi_cross.Vfs.State.{devfs, Node, Stat, Vfs, Drivers}
use sophon_rpi_cross.Vfs.RootFs.{join_path, opened}

abbrev pub contains : List Text → Text → Bool
contains [] w = false
contains (v ∷ vs) w = let rest = contains vs w in if text_eq v w then true else rest

-- `DevFS::stat`
abbrev pub devfs_stat : Vfs → Node → Text → Option Stat
devfs_stat v parent entry =
    if text_eq parent.path (text "/dev")
    then if contains v.devices entry
      then some (record { fs = devfs; mount = none; is_dir = false })
      else none
    else none

-- `DevFS::open`
abbrev pub devfs_open : Vfs → Node → Text → Option Node
devfs_open v parent name =
    if contains v.devices name
    then some (opened devfs name (join_path parent.path name) none)
    else none

-- `DevFS::read`
abbrev pub devfs_read : Vfs → Drivers → Node → ℕ → ℕ → Option (List ℕ)
devfs_read v drivers node offset len =
    if contains v.devices node.name then drivers.read node.name offset len else none

-- `DevFS::write`
abbrev pub devfs_write : Vfs → Drivers → Node → ℕ → List ℕ → Option ℕ
devfs_write v drivers node offset bytes =
    if contains v.devices node.name then drivers.write node.name offset bytes else none

-- `DevFS::read_dir`
abbrev pub devfs_read_dir : Vfs → Node → Option (List Text)
devfs_read_dir v node = if text_eq node.path (text "/dev") then some v.devices else none

-- `DevFS::mount` is `unimplemented!()`.
abbrev pub devfs_mount : Node → Text → ℕ → Outcome (Option (Node × Vfs))
devfs_mount parent name key = panic explicit

abbrev insert_name : Text → List Text → List Text
insert_name w [] = w ∷ []
insert_name w (v ∷ vs) =
    let rest = insert_name w vs in
    if text_eq v w then v ∷ vs else if less w v then w ∷ v ∷ vs else v ∷ rest

-- `DevRequest::RegisterDev` of modules/dev.
unfoldable pub register_dev : Bool → Text → Vfs → Outcome Vfs
register_dev privileged name v = do
  assert privileged
  done (record v { devices = insert_name name v.devices })
