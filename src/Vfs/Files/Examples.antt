-- ===== src/Vfs/Files/Examples.antt =====
-- A root file system with a device, a process with open files, and the theorems of modules/vfs at them.
use sophon_rpi_cross.Base.{
  ℕ, ◌≡◌, ◌≢◌, refl, Option, none, some, List, [], ◌∷◌, done, panic, assertion, index_out_of_range,
  arith, true, false, replicate, length, get_elem?,
}
use sophon_rpi_cross.Base.Text.{text, split}
use sophon_rpi_cross.RamFs.{ramfs_get, file, dir, mnt, end, item}
use sophon_rpi_cross.Vfs.Nodes.{Vfs, Node, Stat, rootfs, devfs, Drivers, root_node, open_node, stat}
use sophon_rpi_cross.Vfs.Paths.{vfs_open, trim_slashes}
use sophon_rpi_cross.Vfs.Files.{
  ProcData, FileDescriptor, at_start, canonicalize, through_mount, open_call, close_call, returns,
  segments,
}
use sophon_rpi_cross.Vfs.Segments.{AllNames}
use sophon_rpi_cross.Vfs.Files.Canonical.{canonicalize-canonicalize}
use sophon_rpi_cross.Vfs.Files.Descriptors.{
  Opens, IsStack, after_close, open_fresh, open_times, numbered, open_until_full, open_overwrites,
}
use sophon_rpi_cross.Vfs.Files.Reading.{At, read_all, read_all_file}
use sophon_rpi_cross.Vfs.Files.Crashes.{Directories, node_at, double_slash_panics, open_below_file}

abbrev dev_root : Node
dev_root = record root_node { name = text "dev"; path = text "/dev"; fs = devfs; mount = none }

-- `etc/f`, `init`, and the devices at `dev`.
abbrev mounted : Vfs
mounted = record {
  ramfs = dir (
      item (text "dev") (mnt 0) (
        item (text "etc") (dir (item (text "f") (file (1 ∷ 2 ∷ 3 ∷ [])) end))
          (item (text "init") (file (7 ∷ 8 ∷ [])) end)));
  is_initialized = true;
  mount_points =
      some (record { parent = root_node; root = dev_root; dev = 0; fs = devfs }) ∷ none ∷ [];
  file_systems = (text "devfs", devfs) ∷ (text "rootfs", rootfs) ∷ [];
  devices = text "tty.serial" ∷ [];
}

abbrev silent : Drivers
silent = record { read = λ d offset len. some []; write = λ d offset bytes. some (length bytes) }

abbrev tty : Node
tty = record root_node { name = text "tty.serial"; path = text "/dev/tty.serial"; fs = devfs }

abbrev etc_f : Node
etc_f = record root_node { name = text "f"; path = text "/etc/f" }

abbrev init_node : Node
init_node = record root_node { name = text "init"; path = text "/init" }

abbrev with_open : List (Option FileDescriptor) → ℕ → ProcData
with_open nodes files = record { nodes = nodes; cwd = text "/etc"; files = files }

abbrev on : Node → Option FileDescriptor
on n = some (at_start n)

-- The three that a process starts with, then `/etc/f` and `/init`.
abbrev five : ProcData
five = with_open (on tty ∷ on tty ∷ on tty ∷ on etc_f ∷ on init_node ∷ replicate 11 none) 5

f-Opens : (p : ProcData) → p.cwd ≡ text "/etc" → Opens mounted p (text "f") etc_f
unfolding canonicalize vfs_open open_node through_mount stat ramfs_get
f-Opens p e = record {
  full = text "/etc/f";
  found = etc_f;
  canonical = rw e refl;
  is_there = refl;
  leads_to = refl;
}

five-IsStack : IsStack five
five-IsStack = record {
  slots = refl;
  bounded = omega arith;
  live = λ fd lt e. ground arith;
  free = λ fd le lt. ground arith;
}

open_fresh_example :
    (p' : ProcData) × (open_call mounted five (text "f") ≡ done (returns 5, p'))
    × (get_elem? five.nodes 5 ≡ some none)
    × (get_elem? p'.nodes 5 ≡ some (on etc_f))
    × ((fd : ℕ) → fd ≢ 5 → get_elem? p'.nodes fd ≡ get_elem? five.nodes fd)
    × IsStack p'
open_fresh_example =
    open_fresh mounted five (text "f") etc_f (f-Opens five refl) five-IsStack (omega arith)

-- Descriptors 5 to 15, and no more.
open_until_full_example :
    (p' : ProcData) × (open_times 11 mounted (text "f") five ≡ done (numbered 5 11, p'))
    × IsStack p'
    × (open_call mounted p' (text "f") ≡ panic index_out_of_range)
open_until_full_example =
    open_until_full 11 mounted five (text "f") etc_f (f-Opens five refl) five-IsStack refl

after_close-cwd : (p : ProcData) (fd : ℕ) → (after_close p fd).cwd ≡ p.cwd
unfolding after_close
after_close-cwd p fd = refl

-- Closing `/etc/f` (3) and opening it again overwrites the descriptor of `/init` (4).
open_overwrites_example :
    (p₁ : ProcData) × (p₂ : ProcData) × (close_call five 3 ≡ done (returns 0, p₁))
    × (get_elem? p₁.nodes 4 ≡ some (on init_node))
    × (open_call mounted p₁ (text "f") ≡ done (returns 4, p₂))
    × (get_elem? p₂.nodes 4 ≡ some (on etc_f))
open_overwrites_example =
    open_overwrites mounted five 3 4 (at_start etc_f) (at_start init_node) (text "f") etc_f
      (omega arith) (omega arith) refl refl refl refl (omega arith)
      (f-Opens (after_close five 3) (after_close-cwd five 3))

five-At : At mounted five 3 (1 ∷ 2 ∷ 3 ∷ []) 0
unfolding ramfs_get
five-At = record {
  desc = at_start etc_f;
  is_open = refl;
  is_root = refl;
  holds = refl;
  stands = refl;
}

read_all_file_example : read_all 4 mounted silent five 3 2 ≡ done (some (1 ∷ 2 ∷ 3 ∷ []))
read_all_file_example =
    read_all_file 4 mounted silent five 3 (1 ∷ 2 ∷ 3 ∷ []) 0 2 (omega arith) (omega arith) five-At
      (omega arith)

etc-AllNames : AllNames (segments (split (text "etc")))
etc-AllNames = (record { not_empty = refl; no_slash = refl; not_dot = refl; not_dots = refl }, tt)

canonicalize-canonicalize_example :
    canonicalize (text "/etc/a") (text "../b") ≡ canonicalize (text "/etc") (text "a/../b")
unfolding canonicalize
canonicalize-canonicalize_example =
    canonicalize-canonicalize (text "/etc") (text "etc") (text "a") (text "../b") (text "/etc/a")
      refl etc-AllNames refl refl refl refl

abbrev dir_stat : Stat
dir_stat = record { fs = rootfs; mount = none; is_dir = true }

abbrev file_stat : Stat
file_stat = record { fs = rootfs; mount = none; is_dir = false }

etc_only : Directories mounted root_node (text "etc" ∷ [])
unfolding stat ramfs_get
etc_only = (
  record { not_empty = refl; no_slash = refl; not_dot = refl; not_dots = refl },
  (dir_stat, refl, refl),
  tt,
)

double_slash_panics_example : vfs_open mounted (text "/etc//f") ≡ panic assertion
unfolding trim_slashes
double_slash_panics_example =
    double_slash_panics mounted (text "/etc//f") (text "f") (text "etc" ∷ [])
      (record { absolute = refl; not_root = refl; left = refl }) etc_only

open_below_file_example :
    (vfs_open mounted (text "/etc/f/a/b") ≡ vfs_open mounted (text "/etc/f"))
    × (vfs_open mounted (text "/etc/f")
        ≡ open_node mounted (node_at root_node (text "etc" ∷ [])) (text "f"))
unfolding stat ramfs_get trim_slashes
open_below_file_example =
    open_below_file mounted (text "/etc/f/a/b") (text "/etc/f") (text "f") (text "a/b")
      (text "etc" ∷ []) file_stat (record { absolute = refl; not_root = refl; left = refl })
      (record { absolute = refl; not_root = refl; left = refl }) etc_only
      (record { not_empty = refl; no_slash = refl; not_dot = refl; not_dots = refl }) refl refl refl
