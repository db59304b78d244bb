-- ===== src/RamFs/Total.antt =====
-- When `insert` and `mount` of libs/vfs/src/ramfs.rs go through, and when they panic.
use sophon_rpi_cross.Base.{
  ℕ, ◌≡◌, refl, sym, ◌∙◌, Bool, true, false, Option, none, some, List, [], ◌∷◌, done, panic,
  assertion, arith, Option-cases, inl, inr,
}
use sophon_rpi_cross.Base.Text.{Text, text_eq_refl}
use sophon_rpi_cross.RamFs.{
  Entry, file, dir, mnt, Dir, end, item, lookup, contains_key, put, get, insert, mount,
}
use sophon_rpi_cross.RamFs.Names.{look, names, place_at, get-look, place_fuel-names}
use sophon_rpi_cross.RamFs.Insert.{above, relate, look-dir, leaf_below, empty_below}

abbrev pub is_leaf : Option Entry → Bool
is_leaf none = false
is_leaf (some (dir d)) = false
is_leaf (some (file bytes)) = true
is_leaf (some (mnt key)) = true

abbrev is_some : Option Entry → Bool
is_some none = false
is_some (some e) = true

contains_key-lookup : (w : Text) (d : Dir) → contains_key w d ≡ is_some (lookup w d)
unfolding contains_key lookup
contains_key-lookup w end = refl
contains_key-lookup w (item k e rest) = ground (arith, contains_key-lookup w rest)

-- No file and no mount point stands on the way to `p`.
abbrev pub IsOpen : Dir → List Text → Type 0
IsOpen d p = (q : List Text) → relate p q ≡ above → is_leaf (look (dir d) q) ≡ false

look_one : (d : Dir) (w : Text) → look (dir d) (w ∷ []) ≡ lookup w d
unfolding look
look_one d w = ground arith

look_step :
    (d sub : Dir) (w : Text) (q : List Text)
    → lookup w d ≡ some (dir sub)
    → look (dir d) (w ∷ q) ≡ look (dir sub) q
look_step d sub w q e = rw (look-dir d w q, e)

IsOpen-end : (p : List Text) → IsOpen end p
unfolding look lookup
IsOpen-end p [] h = refl
IsOpen-end p (v ∷ vs) h = refl

IsOpen-sub :
    (d sub : Dir) (w : Text) (p : List Text)
    → lookup w d ≡ some (dir sub)
    → IsOpen d (w ∷ p)
    → IsOpen sub p
IsOpen-sub d sub w p e o q h =
    rw (look_step d sub w q e) at (o (w ∷ q) (ground (arith, text_eq_refl w)))

place_at-done :
    (ws : List Text) (d : Dir) (w : Text) (e : Entry)
    → IsOpen d (w ∷ ws)
    → look (dir d) (w ∷ ws) ≡ none
    → (d' : Dir) × (place_at d w ws e ≡ done d')
unfolding place_at
place_at-done [] d w e o free = (put w e d, ground (arith, contains_key-lookup w d, look_one d w))
place_at-done (x ∷ xs) d w e o free = elim (Option-cases (lookup w d)) [
  | inl n ↦
      let (sub', h) = place_at-done xs end x e (IsOpen-end (x ∷ xs)) (empty_below x xs) in
      (put w (dir sub') d, ground (arith, n, h))
  | inr (dir sub, n) ↦
      let (sub', h) =
        place_at-done xs sub x e (IsOpen-sub d sub w (x ∷ xs) n o)
          (sym (look_step d sub w (x ∷ xs) n) ∙ free) in
      (put w (dir sub') d, ground (arith, n, h))
  | inr (file b, n) ↦ ground (arith, o (w ∷ []), text_eq_refl w, look_one d w, n)
  | inr (mnt m, n) ↦ ground (arith, o (w ∷ []), text_eq_refl w, look_one d w, n)
]

-- `insert` goes through, without a panic, where nothing is at the path and neither a file nor a
-- mount point is above it.
pub insert-done :
    (d : Dir) (path : Text) (bytes : List ℕ)
    → IsOpen d (names path)
    → get d path ≡ none
    → (d' : Dir) × (insert d path bytes ≡ done d')
unfolding insert
insert-done d path bytes o free =
    let (w, ws, ns, eq) = place_fuel-names d path (file bytes) in
    let (d', h) =
      place_at-done ws d w (file bytes) (rw ns at o) (rw ns at (sym (get-look d path) ∙ free)) in
    (d', eq ∙ h)

place_at-panic :
    (ws : List Text) (d : Dir) (w : Text) (e f : Entry)
    → look (dir d) (w ∷ ws) ≡ some f
    → place_at d w ws e ≡ panic assertion
unfolding place_at
place_at-panic [] d w e f h = ground (arith, contains_key-lookup w d, look_one d w)
place_at-panic (x ∷ xs) d w e f h = elim (Option-cases (lookup w d)) [
  | inl n ↦ ground (arith, look-dir d w (x ∷ xs), n)
  | inr (dir sub, n) ↦
      ground (arith, n, place_at-panic xs sub x e f (sym (look_step d sub w (x ∷ xs) n) ∙ h))
  | inr (file b, n) ↦ ground (arith, look-dir d w (x ∷ xs), n, leaf_below (file b) x xs tt)
  | inr (mnt m, n) ↦ ground (arith, look-dir d w (x ∷ xs), n, leaf_below (mnt m) x xs tt)
]

-- `mount` at a path where something is already, a file, a directory or a mount point, fails an
-- assertion.
pub mount_over_panics :
    (d : Dir) (path : Text) (key : ℕ) (f : Entry)
    → get d path ≡ some f
    → mount d path key ≡ panic assertion
unfolding mount
mount_over_panics d path key f h =
    let (w, ws, ns, eq) = place_fuel-names d path (mnt key) in
    eq ∙ place_at-panic ws d w (mnt key) f (rw ns at (sym (get-look d path) ∙ h))
