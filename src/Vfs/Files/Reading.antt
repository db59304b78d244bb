-- ===== src/Vfs/Files/Reading.antt =====
-- `Read` of modules/vfs/src/lib.rs on a file of the root file system, and the loop of `exec` in
-- sophon/src/task/syscall.rs that reads a whole file.
use sophon_rpi_cross.Base.{
  ℕ, zero, suc, ◌+◌, ◌-◌, ◌<◌, ◌≤◌, ◌≡◌, refl, sym, ◌∙◌, ap, min, Option, none, some, List, [], ◌∷◌,
  ◌++◌, Outcome, done, panic, explicit, ◌>>=◌, if◌then◌else◌, ◌==◌, length, get_elem?, take, drop,
  arith, get_elem?-set_self, length-take, length-drop, leb, length-set, Bool-cases, inl, inr,
}
use sophon_rpi_cross.RamFs.{file, ramfs_get}
use sophon_rpi_cross.Vfs.Nodes.{Vfs, Node, rootfs, Drivers, read_node, slice}
use sophon_rpi_cross.Vfs.Files.{ProcData, FileDescriptor, read_call, advance}

-- The loop of `exec`, with fuel: reads of `len` bytes until one returns 0. `none` is its -1.
unfoldable pub read_all : ℕ → Vfs → Drivers → ProcData → ℕ → ℕ → Outcome (Option (List ℕ))
unfolding read_call
read_all zero v drivers p fd len = panic explicit
read_all (suc n) v drivers p fd len = do
  (r, p') ← read_call v drivers p fd len
  elim r.value [
    | none ↦ done none
    | some size ↦
        let more = (do
          rest ← read_all n v drivers p' fd len
          done (elim rest [ none ↦ none | some bytes ↦ some (r.bytes ++ bytes) ])) in
        if size == 0 then done (some []) else more
  ]

-- Descriptor `fd` stands at `offset` in a file of the root file system that holds `bytes`.
pub record At (v : Vfs) (p : ProcData) (fd : ℕ) (bytes : List ℕ) (offset : ℕ) : Type 0 where
  pub desc : FileDescriptor
  pub is_open : get_elem? p.nodes fd ≡ some (some desc)
  pub is_root : desc.node.fs ≡ rootfs
  pub holds : ramfs_get v.ramfs desc.node.path ≡ done (some (file bytes))
  pub stands : desc.offset ≡ offset

read_node_lem :
    (v : Vfs) (drivers : Drivers) (node : Node) (bytes : List ℕ) (offset len : ℕ)
    → node.fs ≡ rootfs
    → ramfs_get v.ramfs node.path ≡ done (some (file bytes))
    → read_node v drivers node offset len ≡ done (some (slice bytes offset len))
unfolding read_node
read_node_lem v drivers node bytes offset len fs e = ground arith

drop-drop : (m n : ℕ) (xs : List ℕ) → drop m (drop n xs) ≡ drop (n + m) xs
drop-drop m zero xs = let e : zero + m ≡ m = omega arith in rw e
drop-drop m (suc n) [] = drop-nil m ∙ sym (drop-nil (suc n + m))
  where
    drop-nil : (i : ℕ) → drop i (let e : List ℕ = [] in e) ≡ []
    drop-nil zero = refl
    drop-nil (suc i) = refl
drop-drop m (suc n) (x ∷ xs) =
    let e : suc n + m ≡ suc (n + m) = omega arith in rw e (drop-drop m n xs)

take-append-drop : (n : ℕ) (xs : List ℕ) → take n xs ++ drop n xs ≡ xs
take-append-drop zero xs = refl
take-append-drop (suc n) [] = refl
take-append-drop (suc n) (x ∷ xs) = rw (take-append-drop n xs)

drop-all : (n : ℕ) (xs : List ℕ) → length xs ≤ n → drop n xs ≡ []
drop-all zero [] h = refl
drop-all zero (x ∷ xs) h = absurd (omega arith)
drop-all (suc n) [] h = refl
drop-all (suc n) (x ∷ xs) h = drop-all n xs (omega arith)

-- A read returns what is left, at most `len` bytes of it.
pub length-slice :
    (bytes : List ℕ) (offset len : ℕ)
    → length (slice bytes offset len) ≡ min (length bytes - offset) len
length-slice bytes offset len = elim (Bool-cases (leb (length bytes) offset)) [
  | inl past ↦ rw past (ground arith)
  | inr inside ↦ rw inside (
      ground (
        arith,
        length-take (min (length bytes) (offset + len) - offset) (drop offset bytes),
        length-drop offset bytes,
      ))
]

slice-append :
    (bytes : List ℕ) (offset len : ℕ)
    → slice bytes offset len ++ drop (offset + length (slice bytes offset len)) bytes
      ≡ drop offset bytes
slice-append bytes offset len = elim (Bool-cases (leb (length bytes) offset)) [
  | inl past ↦
      rw (drop-all offset bytes (ground arith)) (ground (arith, past, drop-all (offset + 0) bytes))
  | inr inside ↦
      let m = min (length bytes) (offset + len) - offset in
      let taken : length (take m (drop offset bytes)) ≡ m =
        ground (arith, inside, length-take m (drop offset bytes), length-drop offset bytes) in
      rw (inside, taken, sym (drop-drop m offset bytes)) (take-append-drop m (drop offset bytes))
]

advance-At :
    (v : Vfs) (p : ProcData) (fd : ℕ) (bytes : List ℕ) (offset n : ℕ) (a : At v p fd bytes offset)
    → fd < length p.nodes
    → At v (advance p fd a.desc n) fd bytes (offset + n)
advance-At v p fd bytes offset n a h = record {
  desc = record { node = a.desc.node; offset = a.desc.offset + n };
  is_open = get_elem?-set_self p.nodes fd _ h;
  is_root = a.is_root;
  holds = a.holds;
  stands = ap (λ (i : ℕ). i + n) a.stands;
}

-- A read of a file of the root file system copies the bytes at the offset, as many as the buffer
-- holds or the file has left, returns their number, and moves the offset on by it.
pub read_call_file :
    (v : Vfs) (drivers : Drivers) (p : ProcData) (fd : ℕ) (bytes : List ℕ) (offset len : ℕ)
    → At v p fd bytes offset
    → fd < length p.nodes
    → (p' : ProcData) × (read_call v drivers p fd len
        ≡ done (
          record { value = some (length (slice bytes offset len)); bytes = slice bytes offset len },
          p',
        ))
      × At v p' fd bytes (offset + length (slice bytes offset len))
      × (length p'.nodes ≡ length p.nodes)
unfolding read_call
read_call_file v drivers p fd bytes offset len a h =
    let n = length (slice bytes offset len) in
    let got : read_node v drivers a.desc.node a.desc.offset len
        ≡ done (some (slice bytes offset len)) =
      read_node_lem v drivers a.desc.node bytes a.desc.offset len a.is_root a.holds
      ∙ ap (λ (i : ℕ). done (some (slice bytes i len))) a.stands in
    (
      advance p fd a.desc n,
      ground (arith, a.is_open, got),
      advance-At v p fd bytes offset n a h,
      length-set p.nodes fd _,
    )

-- The loop of `exec` ends, with buffers of any size but 0 and fuel for one read more than there
-- are bytes left, on a file of the root file system, and has then read exactly what the file holds
-- from the offset on.
pub read_all_file :
    (fuel : ℕ) (v : Vfs) (drivers : Drivers) (p : ProcData) (fd : ℕ) (bytes : List ℕ)
    (offset len : ℕ)
    → 0 < len
    → length bytes - offset < fuel
    → At v p fd bytes offset
    → fd < length p.nodes
    → read_all fuel v drivers p fd len ≡ done (some (drop offset bytes))
unfolding read_all
read_all_file zero v drivers p fd bytes offset len pos enough a h = absurd (omega arith)
read_all_file (suc n) v drivers p fd bytes offset len pos enough a h =
    let (p', e, a', len') = read_call_file v drivers p fd bytes offset len a h in
    let got = length (slice bytes offset len) in
    let size = length-slice bytes offset len in
    elim (Bool-cases (got == 0)) [
      | inl last ↦ ground (arith, e, last, drop-all offset bytes, size)
      | inr more ↦ ground (
        arith,
        e,
        more,
        slice-append bytes offset len,
        read_all_file n v drivers p' fd bytes (offset + got) len pos (ground (arith, size, more)) a'
            (rw len' h),
      )
    ]
