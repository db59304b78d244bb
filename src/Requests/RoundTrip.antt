-- ===== src/Requests/RoundTrip.antt =====
-- A request that goes through the registers arrives as it was: libs/syscall and libs/vfs.
use sophon_rpi_cross.Base.{◌<◌, ◌^◌, ◌≡◌, refl, ap, done, ◌>>=◌}
use native.Mathlib.Nat.{mod-eq_of_lt}
use sophon_rpi_cross.Base.Text.{Text}
use sophon_rpi_cross.Proc.Calls.{
  ProcRequest, mutex_create, mutex_lock, mutex_unlock, mutex_destroy, condvar_create, condvar_wait,
  condvar_notify_all, condvar_destroy,
}
use sophon_rpi_cross.Vfs.Files.{
  VfsRequest, open_file, set_cwd_to, close_file, read_file, write_file, read_dir_entry, mount_fs,
  get_cwd,
}
use sophon_rpi_cross.Requests.{
  as_buf, from_buf, proc_as_raw, proc_from_raw, Memory, Places, vfs_as_raw, vfs_from_raw,
}

-- Every request to the process manager arrives in the kernel as it was made.
pub proc_from_raw-proc_as_raw :
    (r : ProcRequest) → (do raw ← from_buf (as_buf (proc_as_raw r)); proc_from_raw raw) ≡ done r
unfolding from_buf as_buf proc_as_raw proc_from_raw
proc_from_raw-proc_as_raw mutex_create = refl
proc_from_raw-proc_as_raw (mutex_lock x) = refl
proc_from_raw-proc_as_raw (mutex_unlock x) = refl
proc_from_raw-proc_as_raw (mutex_destroy x) = refl
proc_from_raw-proc_as_raw condvar_create = refl
proc_from_raw-proc_as_raw (condvar_wait x y) = refl
proc_from_raw-proc_as_raw (condvar_notify_all x) = refl
proc_from_raw-proc_as_raw (condvar_destroy x) = refl

-- What the caller's memory must hold for a request, and that its descriptor is one of 32 bits.
unfoldable pub Stored : Memory → Places → VfsRequest → Type 0
Stored m at (open_file s) = m.str_at at.path ≡ s
Stored m at (set_cwd_to s) = m.str_at at.path ≡ s
Stored m at (close_file fd) = fd < 2 ^ 32
Stored m at (read_file fd len) = (fd < 2 ^ 32) × (m.buffer_at at.buf ≡ len)
Stored m at (write_file fd bytes) = (fd < 2 ^ 32) × (m.slice_at at.buf ≡ bytes)
Stored m at (read_dir_entry fd i len) = (fd < 2 ^ 32) × (m.buffer_at at.buf ≡ len)
Stored m at (mount_fs path dev fs) = (m.str_at at.path ≡ path) × (m.str_at at.name ≡ fs)
Stored m at (get_cwd len) = m.buffer_at at.buf ≡ len

-- A request to the VFS arrives as it was made, if the caller's memory holds what its references point
-- to and its descriptor fits in 32 bits.
pub vfs_from_raw-vfs_as_raw :
    (m : Memory) (at : Places) (r : VfsRequest)
    → Stored m at r
    → (do raw ← from_buf (as_buf (vfs_as_raw at r)); vfs_from_raw m raw) ≡ done r
unfolding from_buf as_buf vfs_as_raw vfs_from_raw Stored
vfs_from_raw-vfs_as_raw m at (open_file s) h = ap (λ (x : Text). done (open_file x)) h
vfs_from_raw-vfs_as_raw m at (set_cwd_to s) h = ap (λ (x : Text). done (set_cwd_to x)) h
vfs_from_raw-vfs_as_raw m at (close_file fd) h = rw (mod-eq_of_lt h) refl
vfs_from_raw-vfs_as_raw m at (read_file fd len) h = rw (mod-eq_of_lt h.0, h.1) refl
vfs_from_raw-vfs_as_raw m at (write_file fd bytes) h = rw (mod-eq_of_lt h.0, h.1) refl
vfs_from_raw-vfs_as_raw m at (read_dir_entry fd i len) h = rw (mod-eq_of_lt h.0, h.1) refl
vfs_from_raw-vfs_as_raw m at (mount_fs path dev fs) h = rw (h.0, h.1)
vfs_from_raw-vfs_as_raw m at (get_cwd len) h = rw h
