-- ===== src/Requests.antt =====
-- libs/syscall/src/lib.rs: a request to a module as the four words that a system call passes in
-- registers, and the requests of modules/pm and modules/vfs in that form.
pub mod RoundTrip
mod Examples
use sophon_rpi_cross.Base.{
  ℕ, ◌+◌, ◌%◌, ◌^◌, Bool, true, false, Option, none, some, List, [], ◌∷◌, Outcome, done, panic,
  explicit, index_out_of_range, ◌>>=◌, if◌then◌else◌, ◌==◌, length,
}
use sophon_rpi_cross.Base.Text.{Text}
use sophon_rpi_cross.Proc.Calls.{
  ProcRequest, mutex_create, mutex_lock, mutex_unlock, mutex_destroy, condvar_create, condvar_wait,
  condvar_notify_all, condvar_destroy,
}
use sophon_rpi_cross.Vfs.Files.{
  VfsRequest, open_file, set_cwd_to, close_file, read_file, write_file, read_dir_entry, mount_fs,
  get_cwd,
}

pub record RawModuleRequest : Type 0 where
  pub id : ℕ
  pub first : ℕ
  pub second : ℕ
  pub third : ℕ

abbrev raw : ℕ → ℕ → ℕ → ℕ → RawModuleRequest
raw id a b c = record { id = id; first = a; second = b; third = c }

-- `as_buf`: the words of the system call, which are those of the registers.
unfoldable pub as_buf : RawModuleRequest → List ℕ
as_buf r = r.id ∷ r.first ∷ r.second ∷ r.third ∷ []

-- `from_buf`, of an array of four words.
unfoldable pub from_buf : List ℕ → Outcome RawModuleRequest
from_buf (i ∷ a ∷ b ∷ c ∷ []) = done (raw i a b c)
from_buf _ = panic index_out_of_range

-- `ProcRequest::as_raw`. A pointer is encoded as the word that it is, and `()` as 0.
unfoldable pub proc_as_raw : ProcRequest → RawModuleRequest
proc_as_raw mutex_create = raw 1 0 0 0
proc_as_raw (mutex_lock x) = raw 2 x 0 0
proc_as_raw (mutex_unlock x) = raw 3 x 0 0
proc_as_raw (mutex_destroy x) = raw 4 x 0 0
proc_as_raw condvar_create = raw 5 0 0 0
proc_as_raw (condvar_wait x y) = raw 6 x y 0
proc_as_raw (condvar_notify_all x) = raw 7 x 0 0
proc_as_raw (condvar_destroy x) = raw 8 x 0 0

-- `ProcRequest::from_raw`
unfoldable pub proc_from_raw : RawModuleRequest → Outcome ProcRequest
proc_from_raw r =
    if r.id == 1
    then done mutex_create
    else if r.id == 2
    then done (mutex_lock r.first)
    else if r.id == 3
    then done (mutex_unlock r.first)
    else if r.id == 4
    then done (mutex_destroy r.first)
    else if r.id == 5
    then done condvar_create
    else if r.id == 6
    then done (condvar_wait r.first r.second)
    else if r.id == 7
    then done (condvar_notify_all r.first)
    else if r.id == 8
    then done (condvar_destroy r.first)
    else panic explicit

-- The caller's memory, as the kernel reads it: the `&str`, the `&[u8]` and (by its length) the
-- `&mut [u8]` at an address.
pub record Memory : Type 0 where
  pub str_at : ℕ → Text
  pub slice_at : ℕ → List ℕ
  pub buffer_at : ℕ → ℕ

-- Where the references of a request stand: what `&str` and slices are encoded as.
pub record Places : Type 0 where
  pub path : ℕ
  pub name : ℕ
  pub buf : ℕ

-- `VFSRequest::as_raw`
unfoldable pub vfs_as_raw : Places → VfsRequest → RawModuleRequest
vfs_as_raw at (open_file s) = raw 1 at.path 0 0
vfs_as_raw at (close_file fd) = raw 2 fd 0 0
vfs_as_raw at (read_file fd len) = raw 3 fd at.buf 0
vfs_as_raw at (write_file fd bytes) = raw 4 fd at.buf 0
vfs_as_raw at (read_dir_entry fd i len) = raw 5 fd i at.buf
vfs_as_raw at (mount_fs path dev fs) = raw 6 at.path dev at.name
vfs_as_raw at (get_cwd len) = raw 7 at.buf 0 0
vfs_as_raw at (set_cwd_to s) = raw 8 at.path 0 0

-- `u32::decode`
abbrev pub decode_u32 : ℕ → ℕ
decode_u32 word = word % 2 ^ 32

-- `VFSRequest::from_raw`
unfoldable pub vfs_from_raw : Memory → RawModuleRequest → Outcome VfsRequest
vfs_from_raw m r =
    if r.id == 1
    then done (open_file (m.str_at r.first))
    else if r.id == 2
    then done (close_file (decode_u32 r.first))
    else if r.id == 3
    then done (read_file (decode_u32 r.first) (m.buffer_at r.second))
    else if r.id == 4
    then done (write_file (decode_u32 r.first) (m.slice_at r.second))
    else if r.id == 5
    then done (read_dir_entry (decode_u32 r.first) r.second (m.buffer_at r.third))
    else if r.id == 6
    then done (mount_fs (m.str_at r.first) r.second (m.str_at r.third))
    else if r.id == 7
    then done (get_cwd (m.buffer_at r.first))
    else if r.id == 8
    then done (set_cwd_to (m.str_at r.first))
    else panic explicit
