-- ===== src/RamFs/Keys.antt =====
-- The order of the entries of a directory of libs/vfs/src/ramfs.rs.
use sophon_rpi_cross.Base.{◌≡◌, refl, true, false, List, [], ◌∷◌, arith}
use sophon_rpi_cross.Base.Text.{Text, text_eq, text_eq_iff, less}
use sophon_rpi_cross.RamFs.{Entry, Dir, end, item, put, entries}

less_total : (s t : Text) → text_eq s t ≡ false → less s t ≡ false → less t s ≡ true
less_total [] [] n h = cc
less_total [] (d ∷ t) n h = cc
less_total (c ∷ s) [] n h = refl
less_total (c ∷ s) (d ∷ t) n h = ground (arith, less_total s t)

-- The names are strictly ascending, and so none stands twice.
abbrev pub Above : Text → List Text → Type 0
Above w [] = Unit {0}
Above w (v ∷ vs) = (less w v ≡ true) × Above v vs

abbrev pub IsAscending : List Text → Type 0
IsAscending [] = Unit {0}
IsAscending (v ∷ vs) = Above v vs

put-Above :
    (w k : Text) (e : Entry) (d : Dir)
    → less w k ≡ true
    → Above w (entries d)
    → Above w (entries (put k e d))
unfolding put entries
put-Above w k e end h a = (h, tt)
put-Above w k e (item i v rest) h a = ground (
  arith,
  a.0,
  a.1,
  less_total k i,
  text_eq_iff i k,
  text_eq_iff k i,
  λ (l : less i k ≡ true). put-Above i k e rest l a.1,
)

-- Placing an entry keeps the names of a directory strictly ascending, so that `entries` lists them
-- in order and none twice.
pub put-IsAscending :
    (k : Text) (e : Entry) (d : Dir) → IsAscending (entries d) → IsAscending (entries (put k e d))
unfolding put entries
put-IsAscending k e end a = tt
put-IsAscending k e (item i v rest) a = ground (
  arith,
  less_total k i,
  text_eq_iff i k,
  text_eq_iff k i,
  λ (l : less i k ≡ true). put-Above i k e rest l a,
)
