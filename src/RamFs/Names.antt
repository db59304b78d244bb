-- ===== src/RamFs/Names.antt =====
-- A path as the list of names that `Dir::get` and `Dir::insert` go through, and their meaning in
-- terms of it.
use Prim.Native.Nat.{pred}
use sophon_rpi_cross.Base.{
  ℕ, zero, suc, ◌<◌, ◌≡◌, refl, false, not, Option, none, some, List, [], ◌∷◌, Outcome, done, ◌>>=◌,
  ◌>>◌, assert, if◌then◌else◌, length, arith, Option-cases, Bool-cases, inl, inr,
}
use sophon_rpi_cross.Base.Text.{Text, is_empty, split_name}
use sophon_rpi_cross.RamFs.{
  Entry, file, dir, mnt, Dir, end, lookup, contains_key, put, get_fuel, get, fuel_for, place_fuel,
  sub_dir,
}

-- The part of a path after its first slash is shorter, if it is not empty.
pub length-split_name :
    (path : Text) → is_empty (split_name path).1 ≡ false → length (split_name path).1 < length path
length-split_name [] h = cc
length-split_name (c ∷ s) h = ground (arith, length-split_name s)

unfoldable pub names_fuel : ℕ → Text → List Text
names_fuel zero path = []
names_fuel (suc n) path =
    let (name, rest) = split_name path in name ∷ (if is_empty rest then [] else names_fuel n rest)

unfoldable pub names : Text → List Text
names path = names_fuel (fuel_for path) path

-- The entry that a list of names leads to.
unfoldable pub look : Entry → List Text → Option Entry
look e [] = some e
look (dir d) (w ∷ ws) = elim (lookup w d) [ none ↦ none | some e ↦ look e ws ]
look (file bytes) (w ∷ ws) = none
look (mnt key) (w ∷ ws) = none

-- With fuel left there is a name.
names_fuel_cons :
    (n : ℕ) (path : Text)
    → 0 < n
    → names_fuel n path
      ≡ (split_name path).0
        ∷ (if is_empty (split_name path).1 then [] else names_fuel (pred n) (split_name path).1)
unfolding names_fuel
names_fuel_cons zero path h = elim h [ ]
names_fuel_cons (suc n) path h = refl

get_fuel-look :
    (n : ℕ) (d : Dir) (path : Text)
    → length path < n
    → get_fuel n d path ≡ look (dir d) (names_fuel n path)
unfolding get_fuel names_fuel look
get_fuel-look zero d path h = absurd (omega arith)
get_fuel-look (suc n) d path h =
    let name = (split_name path).0 in
    let rest = (split_name path).1 in
    let step : (sub : Dir)
        → is_empty rest ≡ false
        → get_fuel n sub rest ≡ look (dir sub) (names_fuel n rest) =
      λ sub e. get_fuel-look n sub rest (omega (arith, length-split_name path e)) in
    elim (Bool-cases (is_empty rest)) [
      | inl last ↦ ground arith
      | inr more ↦ elim (Option-cases (lookup name d)) [
        | inl e ↦ ground arith
        | inr (file b, e) ↦ ground (arith, names_fuel_cons n rest, length-split_name path)
        | inr (mnt m, e) ↦ ground (arith, names_fuel_cons n rest, length-split_name path)
        | inr (dir sub, e) ↦ ground (arith, step sub more)
      ]
    ]

-- `get` finds what the names of the path lead to.
pub get-look : (d : Dir) (path : Text) → get d path ≡ look (dir d) (names path)
unfolding get names
get-look d path = get_fuel-look (fuel_for path) d path (omega arith)

-- `place_fuel` in terms of the names: the first name and those after it.
unfoldable pub place_at : Dir → Text → List Text → Entry → Outcome Dir
place_at d w [] e = do assert (not (contains_key w d)); done (put w e d)
place_at d w (v ∷ ws) e = do
  sub ← sub_dir (lookup w d)
  sub' ← place_at sub v ws e
  done (put w (dir sub') d)

abbrev pub later_names : ℕ → Text → List Text
later_names n rest = if is_empty rest then [] else names_fuel n rest

place_fuel-place_at :
    (n : ℕ) (d : Dir) (path : Text) (e : Entry)
    → length path < n
    → place_fuel n d path e
      ≡ place_at d (split_name path).0 (later_names (pred n) (split_name path).1) e
unfolding place_fuel place_at
place_fuel-place_at zero d path e h = absurd (omega arith)
place_fuel-place_at (suc n) d path e h =
    let name = (split_name path).0 in
    let rest = (split_name path).1 in
    elim (Bool-cases (is_empty rest)) [
      | inl last ↦ ground arith
      | inr more ↦
          let cons = names_fuel_cons n rest (omega (arith, length-split_name path more)) in
          let step : (sub : Dir)
              → place_fuel n sub rest e
                ≡ place_at sub (split_name rest).0 (later_names (pred n) (split_name rest).1) e =
            λ sub. place_fuel-place_at n sub rest e (omega (arith, length-split_name path more)) in
          elim (Option-cases (lookup name d)) [
            | inl k ↦ ground (arith, cons, step end)
            | inr (file b, k) ↦ ground (arith, cons)
            | inr (mnt m, k) ↦ ground (arith, cons)
            | inr (dir sub, k) ↦ ground (arith, cons, step sub)
          ]
    ]

pub place_fuel-names :
    (d : Dir) (path : Text) (e : Entry)
    → (w : Text) × (ws : List Text) × (names path ≡ w ∷ ws)
      × (place_fuel (fuel_for path) d path e ≡ place_at d w ws e)
unfolding names
place_fuel-names d path e = (
  (split_name path).0,
  later_names (length path) (split_name path).1,
  names_fuel_cons (fuel_for path) path (omega arith),
  place_fuel-place_at (fuel_for path) d path e (omega arith),
)
