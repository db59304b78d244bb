-- ===== src/Vfs/Files/Descriptors.antt =====
-- The file descriptors of a process: `Open` and `Close` of modules/vfs/src/lib.rs.
use sophon_rpi_cross.Base.{
  ℕ, zero, suc, refl, List, [], ◌∷◌, Outcome, ◌>>=◌, ◌+◌, ◌-◌, ◌<◌, ◌≤◌, ◌≡◌, ◌≢◌, sym, ◌∙◌, ap,
  none, some, done, panic, index_out_of_range, length, get_elem?, set, arith, get_elem?-set_self,
  get_elem?-set_ne, length-set,
}
use sophon_rpi_cross.Base.Text.{Text}
use sophon_rpi_cross.Vfs.Nodes.{Vfs, Node}
use sophon_rpi_cross.Vfs.Paths.{vfs_open}
use sophon_rpi_cross.Vfs.Files.{
  Reply, ProcData, FileDescriptor, at_start, canonicalize, through_mount, open_call, close_call,
  returns,
}

-- A path that can be opened, and the node that it leads to.
pub record Opens (v : Vfs) (p : ProcData) (path : Text) (n : Node) : Type 0 where
  pub full : Text
  pub found : Node
  pub canonical : canonicalize p.cwd path ≡ done (some full)
  pub is_there : vfs_open v full ≡ done (some found)
  pub leads_to : through_mount v found ≡ done n

-- The descriptors in use are those below `files`, of 16.
pub record IsStack (p : ProcData) : Type 0 where
  pub slots : length p.nodes ≡ 16
  pub bounded : p.files ≤ 16
  pub live : (fd : ℕ) → fd < p.files → get_elem? p.nodes fd ≢ some none
  pub free : (fd : ℕ) → p.files ≤ fd → fd < 16 → get_elem? p.nodes fd ≡ some none

after_open : ProcData → Node → ProcData
after_open p n = record p { nodes = set p.nodes p.files (some (at_start n)); files = p.files + 1 }

open_call_lem :
    (v : Vfs) (p : ProcData) (path : Text) (n : Node)
    → Opens v p path n
    → p.files < length p.nodes
    → open_call v p path ≡ done (returns p.files, after_open p n)
unfolding open_call after_open
open_call_lem v p path n o h = ground (arith, o.canonical, o.is_there, o.leads_to)

after_open-IsStack : (p : ProcData) (n : Node) → IsStack p → p.files < 16 → IsStack (after_open p n)
unfolding after_open
after_open-IsStack p n s h = record {
  slots = length-set p.nodes p.files (some (at_start n)) ∙ s.slots;
  bounded = omega arith;
  live = λ fd lt e. ground (
    arith,
    s.live fd,
    s.slots,
    get_elem?-set_ne p.nodes p.files fd (some (at_start n)),
    get_elem?-set_self p.nodes p.files (some (at_start n)),
  );
  free = λ fd le lt.
      ground (arith, s.free fd, get_elem?-set_ne p.nodes p.files fd (some (at_start n)));
}

-- While the descriptors in use are those below `files` and these are fewer than 16, `Open` of a
-- path that can be opened returns a descriptor that was not in use, at the start of the file,
-- keeps every other descriptor, and keeps that discipline.
pub open_fresh :
    (v : Vfs) (p : ProcData) (path : Text) (n : Node)
    → Opens v p path n
    → IsStack p
    → p.files < 16
    → (p' : ProcData) × (open_call v p path ≡ done (returns p.files, p'))
      × (get_elem? p.nodes p.files ≡ some none)
      × (get_elem? p'.nodes p.files ≡ some (some (at_start n)))
      × ((fd : ℕ) → fd ≢ p.files → get_elem? p'.nodes fd ≡ get_elem? p.nodes fd)
      × IsStack p'
unfolding after_open
open_fresh v p path n o s h = (
  after_open p n,
  open_call_lem v p path n o (omega (arith, s.slots)),
  s.free p.files (omega arith) h,
  get_elem?-set_self p.nodes p.files (some (at_start n)) (omega (arith, s.slots)),
  λ fd ne. get_elem?-set_ne p.nodes p.files fd (some (at_start n)) (λ e. ne (sym e)),
  after_open-IsStack p n s h,
)

-- With `files` at 16 `Open` of a path that can be opened panics.
open_full :
    (v : Vfs) (p : ProcData) (path : Text) (n : Node)
    → Opens v p path n
    → length p.nodes ≡ 16
    → p.files ≡ 16
    → open_call v p path ≡ panic index_out_of_range
unfolding open_call
open_full v p path n o s h = ground (arith, o.canonical, o.is_there, o.leads_to)

-- A program that opens the same path so many times, with what the calls return.
abbrev pub open_times : ℕ → Vfs → Text → ProcData → Outcome (List Reply × ProcData)
open_times zero v path p = done ([], p)
open_times (suc j) v path p = do
  (r, p₁) ← open_call v p path
  (rs, p₂) ← open_times j v path p₁
  done (r ∷ rs, p₂)

abbrev pub numbered : ℕ → ℕ → List Reply
numbered fd zero = []
numbered fd (suc j) = returns fd ∷ numbered (fd + 1) j

after_open-Opens :
    (v : Vfs) (p : ProcData) (path : Text) (n n' : Node)
    → Opens v p path n
    → Opens v (after_open p n') path n
unfolding after_open
after_open-Opens v p path n n' o = record {
  full = o.full;
  found = o.found;
  canonical = o.canonical;
  is_there = o.is_there;
  leads_to = o.leads_to;
}

-- While the descriptors in use are those below `files`, a program that opens a path that can be opened,
-- again and again without closing, gets each descriptor up to 15 in turn, and the `Open` after that
-- panics the kernel.
pub open_until_full :
    (j : ℕ) (v : Vfs) (p : ProcData) (path : Text) (n : Node)
    → Opens v p path n
    → IsStack p
    → p.files + j ≡ 16
    → (p' : ProcData) × (open_times j v path p ≡ done (numbered p.files j, p'))
      × IsStack p'
      × (open_call v p' path ≡ panic index_out_of_range)
open_until_full zero v p path n o s h =
    (p, refl, s, open_full v p path n o s.slots (omega (arith, h)))
open_until_full (suc j) v p path n o s h =
    let less : p.files < 16 = omega (arith, h) in
    let first = open_call_lem v p path n o (omega (arith, less, s.slots)) in
    let next : (after_open p n).files ≡ p.files + 1 = unfold after_open in refl in
    let (p', e, s', full) =
      open_until_full j v (after_open p n) path n (after_open-Opens v p path n n o)
        (after_open-IsStack p n s less) (omega (arith, next, h)) in
    (p', rw (first, e) (ap (λ (fd : ℕ). done (returns p.files ∷ numbered fd j, p')) next), s', full)

unfoldable pub after_close : ProcData → ℕ → ProcData
after_close p fd = record p { nodes = set p.nodes fd none; files = p.files - 1 }

close_call_lem :
    (p : ProcData) (fd : ℕ) (f : FileDescriptor)
    → 3 ≤ fd
    → get_elem? p.nodes fd ≡ some (some f)
    → close_call p fd ≡ done (returns 0, after_close p fd)
unfolding close_call after_close
close_call_lem p fd f h e = ground arith

after_close-IsStack :
    (p : ProcData) (fd : ℕ) → IsStack p → fd + 1 ≡ p.files → IsStack (after_close p fd)
unfolding after_close
after_close-IsStack p fd s h = record {
  slots = length-set p.nodes fd none ∙ s.slots;
  bounded = omega (arith, s.bounded);
  live = λ i lt e. ground (arith, s.live i, get_elem?-set_ne p.nodes fd i none);
  free = λ i le lt. ground (
    arith,
    s.free i,
    s.slots,
    get_elem?-set_ne p.nodes fd i none,
    get_elem?-set_self p.nodes fd none,
  );
}

-- While the descriptors in use are those below `files`, closing the last of them, if it is not one
-- of the first three, succeeds, gives its number back, and keeps that discipline.
pub close_last :
    (p : ProcData) (fd : ℕ) (f : FileDescriptor)
    → IsStack p
    → 3 ≤ fd
    → fd + 1 ≡ p.files
    → get_elem? p.nodes fd ≡ some (some f)
    → (p' : ProcData) × (close_call p fd ≡ done (returns 0, p')) × (p'.files ≡ fd) × IsStack p'
unfolding after_close
close_last p fd f s h e live =
    (after_close p fd, close_call_lem p fd f h live, omega arith, after_close-IsStack p fd s e)

-- Closing a descriptor other than the last (and the first three) makes the next `Open` return the
-- number of the last one, which is still in use: the file that was open there is lost.
pub open_overwrites :
    (v : Vfs) (p : ProcData) (fd last : ℕ) (f g : FileDescriptor) (path : Text) (n : Node)
    → 3 ≤ fd
    → fd < last
    → p.files ≡ last + 1
    → length p.nodes ≡ 16
    → get_elem? p.nodes fd ≡ some (some f)
    → get_elem? p.nodes last ≡ some (some g)
    → last < 16
    → Opens v (after_close p fd) path n
    → (p₁ : ProcData) × (p₂ : ProcData) × (close_call p fd ≡ done (returns 0, p₁))
      × (get_elem? p₁.nodes last ≡ some (some g))
      × (open_call v p₁ path ≡ done (returns last, p₂))
      × (get_elem? p₂.nodes last ≡ some (some (at_start n)))
unfolding after_open
open_overwrites v p fd last f g path n h lt files slots ef eg l o =
    let p₁ = after_close p fd in
    let len : length p₁.nodes ≡ 16 = unfold after_close in length-set p.nodes fd none ∙ slots in
    let next : p₁.files ≡ last = unfold after_close in omega arith in
    (
      p₁,
      after_open p₁ n,
      close_call_lem p fd f h ef,
      unfold after_close in get_elem?-set_ne p.nodes fd last none (λ e. omega arith) ∙ eg,
      open_call_lem v p₁ path n o (omega arith)
          ∙ ap (λ (i : ℕ). done (returns i, after_open p₁ n)) next,
      ap (λ (i : ℕ). get_elem? (after_open p₁ n).nodes i) (sym next)
          ∙ get_elem?-set_self p₁.nodes p₁.files (some (at_start n)) (omega arith),
    )
