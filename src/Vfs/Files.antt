-- ===== src/Vfs/Files.antt =====
-- modules/vfs/src/lib.rs: the open files of a process, and the system calls.
pub mod Canonical
pub mod Descriptors
pub mod Reading
pub mod Crashes
pub mod Examples
use sophon_rpi_cross.Base.{
  ℕ, zero, suc, ◌+◌, ◌-◌, min, Bool, true, false, not, ◌||◌, Option, none, some, List, [], ◌∷◌,
  ◌++◌, Outcome, done, panic, explicit, index_out_of_range, ◌>>=◌, ◌>>◌, assert, unwrap,
  if◌then◌else◌, length, get_elem?, set, take, replicate, ltb, leb,
}
use mathlib.Core.List.{reverse}
use sophon_rpi_cross.Base.Text.{
  Text, text, text_eq, slash, is_empty, split, join, starts_with_slash, ends_with_slash, drop_last,
  strip_prefix_slash, as_bytes,
}
use sophon_rpi_cross.Vfs.Nodes.{
  devfs, Vfs, Node, FileSystem, Drivers, read_node, write_node, read_dir,
}
use sophon_rpi_cross.Vfs.Paths.{vfs_open, dir_or_mnt_exists, mount_point}
use sophon_rpi_cross.Vfs.Mount.{vfs_mount}
pub use sophon_rpi_cross.Vfs.Cwd.{
  FileDescriptor, ProcData, at_start, segments, dot, dots, strip_suffix_slash,
}
unfoldable pub use sophon_rpi_cross.Vfs.Cwd.{apply_segments, canonicalize}
use sophon_rpi_cross.Vfs.Cwd.{set_cwd}

-- `proc_data.nodes[fd]`
unfoldable pub descriptor : ProcData → ℕ → Outcome (Option FileDescriptor)
descriptor p fd = elim (get_elem? p.nodes fd) [ none ↦ panic index_out_of_range | some d ↦ done d ]

-- `proc_data.nodes[fd] = d`
unfoldable pub put_descriptor : ProcData → ℕ → Option FileDescriptor → Outcome ProcData
put_descriptor p fd d =
    if ltb fd (length p.nodes)
    then done (record p { nodes = set p.nodes fd d })
    else panic index_out_of_range

-- What a call returns (`none` is -1), and the bytes that it copies into the caller's buffer.
pub record Reply : Type 0 where
  pub value : Option ℕ
  pub bytes : List ℕ

abbrev pub fails : Reply
fails = record { value = none; bytes = [] }

abbrev pub returns : ℕ → Reply
returns n = record { value = some n; bytes = [] }

pub data VfsRequest : Type 0 where
  open_file set_cwd_to : Text → VfsRequest
  close_file : ℕ → VfsRequest
  read_file : ℕ → ℕ → VfsRequest
  write_file : ℕ → List ℕ → VfsRequest
  read_dir_entry : ℕ → ℕ → ℕ → VfsRequest
  mount_fs : Text → ℕ → Text → VfsRequest
  get_cwd : ℕ → VfsRequest

-- `VFSRequest::Open`: the node, then the root of what is mounted on it.
unfoldable pub through_mount : Vfs → Node → Outcome Node
unfolding mount_point
through_mount v node = elim node.mount [
  | none ↦ done node
  | some key ↦ (do m ← mount_point v key; mnt ← unwrap m; done mnt.root)
]

unfoldable pub open_call : Vfs → ProcData → Text → Outcome (Reply × ProcData)
unfolding put_descriptor through_mount
open_call v p path = do
  r ← canonicalize p.cwd path
  elim r [
    | none ↦ done (fails, p)
    | some full ↦ (do
      found ← vfs_open v full
      elim found [
        | none ↦ done (fails, p)
        | some node ↦ (do
          n ← through_mount v node
          p' ← put_descriptor p p.files (some (at_start n))
          done (returns p.files, record p' { files = p.files + 1 }))
      ])
  ]

-- `VFSRequest::Close`; `FileSystem::close` does nothing in both file systems.
unfoldable pub close_call : ProcData → ℕ → Outcome (Reply × ProcData)
unfolding descriptor
close_call p fd = if ltb fd 3 then done (fails, p) else do
  d ← descriptor p fd
  elim d [
    | none ↦ done (fails, p)
    | some f ↦ done (returns 0, record p { nodes = set p.nodes fd none; files = p.files - 1 })
  ]

-- The offset of an open file moves on by what was read or written.
abbrev pub advance : ProcData → ℕ → FileDescriptor → ℕ → ProcData
advance p fd f n = record p { nodes = set p.nodes fd (some (record f { offset = f.offset + n })) }

-- `VFSRequest::Read`
unfoldable pub read_call : Vfs → Drivers → ProcData → ℕ → ℕ → Outcome (Reply × ProcData)
unfolding descriptor
read_call v drivers p fd len = do
  d ← descriptor p fd
  elim d [
    | none ↦ done (fails, p)
    | some f ↦ (do
      r ← read_node v drivers f.node f.offset len
      done (elim r [
        | none ↦ (fails, p)
        | some bytes ↦
            (record { value = some (length bytes); bytes = bytes }, advance p fd f (length bytes))
      ]))
  ]

-- `VFSRequest::Write`
unfoldable pub write_call : Vfs → Drivers → ProcData → ℕ → List ℕ → Outcome (Reply × ProcData)
unfolding descriptor
write_call v drivers p fd bytes = do
  d ← descriptor p fd
  elim d [
    | none ↦ done (fails, p)
    | some f ↦ (do
      r ← write_node v drivers f.node f.offset bytes
      done (elim r [ none ↦ (fails, p) | some n ↦ (returns n, advance p fd f n) ]))
  ]

-- `VFSRequest::ReadDir`
unfoldable pub read_dir_call : Vfs → ProcData → ℕ → ℕ → ℕ → Outcome Reply
unfolding descriptor
read_dir_call v p fd i len = do
  d ← descriptor p fd
  elim d [
    | none ↦ done fails
    | some f ↦ (do
      r ← read_dir v f.node
      done (elim r [
        | none ↦ fails
        | some names ↦ elim (get_elem? names i) [
          | none ↦ returns 0
          | some name ↦ record {
            value = some 1;
            bytes = take (min (length (as_bytes name)) len) (as_bytes name);
          }
        ]
      ]))
  ]

abbrev find_fs : Text → List (Text × FileSystem) → Option FileSystem
find_fs name [] = none
find_fs name ((k, fs) ∷ rest) = if text_eq k name then some fs else find_fs name rest

-- `VFSRequest::Mount`
unfoldable pub mount_call : Vfs → Bool → Text → ℕ → Text → Outcome Vfs
mount_call v privileged path dev name = do
  assert privileged
  fs ← (elim (find_fs name v.file_systems) [ none ↦ panic index_out_of_range | some fs ↦ done fs ])
  r ← vfs_mount v path dev fs
  m ← unwrap r
  done m.1

-- `VFSRequest::GetCwd`
unfoldable pub get_cwd_call : ProcData → ℕ → Reply
get_cwd_call p len =
    let cwd = as_bytes p.cwd in
    if ltb len (length cwd) then fails else record { value = some (length cwd); bytes = cwd }

-- The requests of `handle_module_call`, on the data of the current process.
unfoldable pub serve :
    Vfs → Drivers → ProcData → Bool → VfsRequest → Outcome (Reply × Vfs × ProcData)
serve v drivers p privileged (open_file path) = do (r, p') ← open_call v p path; done (r, v, p')
serve v drivers p privileged (set_cwd_to path) = do
  r ← set_cwd v p path
  done (elim r [ none ↦ (fails, v, p) | some p' ↦ (returns 0, v, p') ])
serve v drivers p privileged (close_file fd) = do (r, p') ← close_call p fd; done (r, v, p')
serve v drivers p privileged (read_file fd len) = do
  (r, p') ← read_call v drivers p fd len
  done (r, v, p')
serve v drivers p privileged (write_file fd bytes) = do
  (r, p') ← write_call v drivers p fd bytes
  done (r, v, p')
serve v drivers p privileged (read_dir_entry fd i len) = do
  r ← read_dir_call v p fd i len
  done (r, v, p)
serve v drivers p privileged (mount_fs path dev name) = do
  v' ← mount_call v privileged path dev name
  done (returns 0, v', p)
serve v drivers p privileged (get_cwd len) = done (get_cwd_call p len, v, p)

-- `handle_module_call`: `enabled` is the interrupt mask of the core.
unfoldable pub handle_module_call :
    Bool → Vfs → Drivers → ProcData → Bool → VfsRequest → Outcome (Reply × Vfs × ProcData)
unfolding serve
handle_module_call enabled v drivers p privileged request = do
  assert (not enabled)
  serve v drivers p privileged request

-- `VFSManager::register_fs`. The first entry of a name is the one that is found.
unfoldable pub register_fs : Text → FileSystem → Vfs → Vfs
register_fs name fs v = record v { file_systems = (name, fs) ∷ v.file_systems }

-- `DEV::init` of modules/dev: `devfs` is registered and mounted.
unfoldable pub dev_init : Vfs → Outcome Vfs
unfolding mount_call register_fs
dev_init v = mount_call (register_fs (text "devfs") devfs v) true (text "/dev") 0 (text "devfs")
