-- ===== src/RamFs.antt =====
-- libs/vfs/src/ramfs.rs: the file tree in memory. A `BTreeMap<String, Entry>` is the list of its
-- entries by ascending key.
pub mod Names
pub mod Insert
pub mod Total
pub mod Keys
pub mod Examples
use sophon_rpi_cross.Base.{
  ℕ, zero, suc, Bool, true, false, not, Option, none, some, List, [], ◌∷◌, Outcome, done, panic,
  explicit, ◌>>=◌, ◌>>◌, assert, unwrap, if◌then◌else◌, length,
}
use sophon_rpi_cross.Base.Text.{
  Text, text_eq, less, is_empty, split_name, strip_prefix_slash, starts_with_slash,
}

mutual
  -- `Entry`: a file with its bytes, a directory, or a mount point with its key.
  pub data Entry : Type 0 where
    file : List ℕ → Entry
    dir : Dir → Entry
    mnt : ℕ → Entry

  -- `Dir`
  pub data Dir : Type 0 where
    end : Dir
    item : Text → Entry → Dir → Dir

-- `BTreeMap::get`
unfoldable pub lookup : Text → Dir → Option Entry
lookup name end = none
lookup name (item k e rest) = if text_eq k name then some e else lookup name rest

-- `BTreeMap::contains_key`
unfoldable pub contains_key : Text → Dir → Bool
contains_key name end = false
contains_key name (item k e rest) = if text_eq k name then true else contains_key name rest

-- `BTreeMap::insert`
unfoldable pub put : Text → Entry → Dir → Dir
put name e end = item name e end
put name e (item k v rest) =
    if text_eq k name
    then item k e rest
    else if less name k
    then item name e (item k v rest)
    else item k v (put name e rest)

-- `Dir::entries`
unfoldable pub entries : Dir → List Text
entries end = []
entries (item k e rest) = k ∷ entries rest

-- `Dir::get`, with fuel for the recursion on what is left of the path.
unfoldable pub get_fuel : ℕ → Dir → Text → Option Entry
get_fuel zero d path = none
get_fuel (suc n) d path =
    let (name, rest) = split_name path in
    elim (lookup name d) [
      | none ↦ none
      | some e ↦
          if is_empty rest
          then some e
          else (elim e [ dir sub ↦ get_fuel n sub rest | file bytes ↦ none | mnt key ↦ none ])
    ]

-- Each round takes at least a character off the path, if there is one.
abbrev pub fuel_for : Text → ℕ
fuel_for path = suc (length path)

unfoldable pub get : Dir → Text → Option Entry
unfolding get_fuel lookup
get d path = get_fuel (fuel_for path) d path

-- The directory that `insert` and `mount` go on in: a new one if there is none.
abbrev pub sub_dir : Option Entry → Outcome Dir
sub_dir none = done end
sub_dir (some (dir d)) = done d
sub_dir (some (file bytes)) = panic explicit
sub_dir (some (mnt key)) = panic explicit

-- `Dir::insert` and `Dir::mount` differ in the entry that they place.
unfoldable pub place_fuel : ℕ → Dir → Text → Entry → Outcome Dir
place_fuel zero d path e = panic explicit
place_fuel (suc n) d path e =
    let (name, rest) = split_name path in
    if is_empty rest then (do assert (not (contains_key name d)); done (put name e d)) else (do
      sub ← sub_dir (lookup name d)
      sub' ← place_fuel n sub rest e
      done (put name (dir sub') d))

unfoldable pub insert : Dir → Text → List ℕ → Outcome Dir
unfolding place_fuel lookup contains_key put
insert d path bytes = place_fuel (fuel_for path) d path (file bytes)

unfoldable pub mount : Dir → Text → ℕ → Outcome Dir
unfolding place_fuel lookup contains_key put
mount d path key = place_fuel (fuel_for path) d path (mnt key)

-- `Entry::as_file`, `as_dir`, `as_mnt`
abbrev pub as_file : Entry → Option (List ℕ)
as_file (file bytes) = some bytes
as_file (dir d) = none
as_file (mnt key) = none

abbrev pub as_dir : Entry → Option Dir
as_dir (file bytes) = none
as_dir (dir d) = some d
as_dir (mnt key) = none

abbrev pub as_mnt : Entry → Option ℕ
as_mnt (file bytes) = none
as_mnt (dir d) = none
as_mnt (mnt key) = some key

-- `RamFS`, whose `root` is an entry. `RamFS::new`:
abbrev pub new : Entry
new = dir end

-- `RamFS::get`
unfoldable pub ramfs_get : Entry → Text → Outcome (Option Entry)
unfolding get
ramfs_get root path = do
  assert (starts_with_slash path)
  elim (strip_prefix_slash path) [
    | none ↦ done none
    | some rest ↦
        if is_empty rest then done (some root) else (do d ← unwrap (as_dir root); done (get d rest))
  ]

-- `RamFS::mount`; `none` is its `Err`.
unfoldable pub ramfs_mount : Entry → Text → ℕ → Outcome (Option Entry)
unfolding mount
ramfs_mount root path key = do
  assert (starts_with_slash path)
  elim (strip_prefix_slash path) [
    | none ↦ done none
    | some rest ↦ elim root [
      | dir d ↦ (do d' ← mount d rest key; done (some (dir d')))
      | file bytes ↦ done none
      | mnt m ↦ done none
    ]
  ]

-- `RamFS::insert`
unfoldable pub ramfs_insert : Entry → Text → List ℕ → Outcome Entry
unfolding insert
ramfs_insert root path bytes = do
  assert (starts_with_slash path)
  rest ← unwrap (strip_prefix_slash path)
  d ← (elim root [ dir d ↦ done d | file b ↦ panic explicit | mnt m ↦ panic explicit ])
  d' ← insert d rest bytes
  done (dir d')
