-- ===== src/Vfs/Files/Crashes.antt =====
-- Paths on which modules/vfs panics or finds the wrong file.
use sophon_rpi_cross.Base.{
  ℕ, zero, suc, ◌<◌, ◌≡◌, refl, sym, ap, ◌∙◌, true, false, none, some, List, [], ◌∷◌, ◌++◌, done,
  panic, assertion, ◌>>=◌, length, length-append, arith,
}
use mathlib.Core.List.{append-nil}
use sophon_rpi_cross.Base.Text.{Text, text_eq, slash, is_empty, split_name, starts_with_slash}
use sophon_rpi_cross.Vfs.Nodes.{Vfs, Node, Stat, root_node, stat, open_node}
use sophon_rpi_cross.Vfs.Paths.{locate, locate_fuel, child, trim_slashes, vfs_open}
use sophon_rpi_cross.Vfs.Segments.{IsName, has_slash}

-- The names, each with a slash after it, and the rest of the path.
abbrev pub along : List Text → Text → Text
along [] rest = rest
along (name ∷ names) rest = name ++ slash ∷ along names rest

-- The node that the names lead to.
abbrev pub node_at : Node → List Text → Node
node_at parent [] = parent
node_at parent (name ∷ names) = node_at (child parent name) names

-- Each name is that of a directory in the one before.
abbrev pub Directories : Vfs → Node → List Text → Type 0
Directories v parent [] = Unit {0}
Directories v parent (name ∷ names) =
    IsName name
    × ((s : Stat) × (stat v parent name ≡ done (some s)) × (s.is_dir ≡ true))
    × Directories v (child parent name) names

-- A path as `vfs_open` gets it, and what is left of it once white space and a slash are off each end.
pub record Trims (path trimmed : Text) : Type 0 where
  pub absolute : starts_with_slash path ≡ true
  pub not_root : text_eq path (slash ∷ []) ≡ false
  pub left : trim_slashes path ≡ trimmed

vfs_open-Trims :
    (v : Vfs) (path trimmed : Text)
    → Trims path trimmed
    → vfs_open v path ≡ (do
      r ← locate v root_node trimmed
      elim r [ none ↦ done none | some (parent, name) ↦ open_node v parent name ])
unfolding vfs_open
vfs_open-Trims v path trimmed s =
    rw (s.absolute, s.not_root) refl
    ∙ ap
        (λ (t : Text). locate v root_node t >>= λ r. elim r [
          | none ↦ done none
          | some (parent, name) ↦ open_node v parent name
        ])
        s.left

split_name-name :
    (name rest : Text) → has_slash name ≡ false → split_name (name ++ slash ∷ rest) ≡ (name, rest)
split_name-name [] rest h = refl
split_name-name (c ∷ name) rest h = ground (arith, split_name-name name rest)

split_name-last : (name : Text) → has_slash name ≡ false → split_name name ≡ (name, [])
split_name-last [] h = refl
split_name-last (c ∷ name) h = ground (arith, split_name-last name)

name_first :
    (name rest : Text)
    → IsName name
    → (starts_with_slash (name ++ rest) ≡ false) × (is_empty (name ++ rest) ≡ false)
name_first [] rest n = absurd (ground (arith, n.not_empty))
name_first (c ∷ name) rest n = (ground arith, refl)

along-not_empty :
    (v : Vfs) (parent : Node) (names : List Text) (rest : Text)
    → Directories v parent names
    → is_empty rest ≡ false
    → is_empty (along names rest) ≡ false
along-not_empty v parent [] rest d h = h
along-not_empty v parent (name ∷ names) rest d h =
    (name_first name (slash ∷ along names rest) d.0).1

-- A round of `vfs_locate_node`: into a directory, or at a file, whether the path ends there or not.
enters :
    (n : ℕ) (v : Vfs) (parent : Node) (path name rest : Text) (s : Stat)
    → starts_with_slash path ≡ false
    → split_name path ≡ (name, rest)
    → stat v parent name ≡ done (some s)
    → s.is_dir ≡ true
    → is_empty rest ≡ false
    → locate_fuel (suc n) v parent path ≡ locate_fuel n v (child parent name) rest
unfolding locate_fuel
enters n v parent path name rest s rel sp st d more = ground arith

stops :
    (n : ℕ) (v : Vfs) (parent : Node) (path name rest : Text) (s : Stat)
    → starts_with_slash path ≡ false
    → split_name path ≡ (name, rest)
    → stat v parent name ≡ done (some s)
    → s.is_dir ≡ false
    → s.mount ≡ none
    → locate_fuel (suc n) v parent path ≡ done (some (parent, name))
unfolding locate_fuel
stops n v parent path name rest s rel sp st d m = ground arith

-- The rounds through all of the directories; the fuel that is left is enough for the rest.
locate-along :
    (n : ℕ) (v : Vfs) (parent : Node) (names : List Text) (rest : Text)
    → Directories v parent names
    → is_empty rest ≡ false
    → length (along names rest) < n
    → (f : ℕ) × (locate_fuel n v parent (along names rest)
        ≡ locate_fuel (suc f) v (node_at parent names) rest)
locate-along zero v parent names rest d h enough = absurd (omega arith)
locate-along (suc n) v parent [] rest d h enough = (n, refl)
locate-along (suc n) v parent (name ∷ names) rest d h enough =
    let later = along-not_empty v (child parent name) names rest d.2 h in
    let (f, e) =
      locate-along n v (child parent name) names rest d.2 h
        (omega (arith, enough, length-append name (slash ∷ along names rest))) in
    (
      f,
      enters n v parent (name ++ slash ∷ along names rest) name (along names rest) d.1.0
            (name_first name (slash ∷ along names rest) d.0).0
            (split_name-name name (along names rest) d.0.no_slash) d.1.1 d.1.2 later
          ∙ e,
    )

locate_slash :
    (f : ℕ) (v : Vfs) (parent : Node) (more : Text)
    → locate_fuel (suc f) v parent (slash ∷ more) ≡ panic assertion
unfolding locate_fuel
locate_slash f v parent more = refl

-- A path that, with white space and one slash off each end, goes through the names of directories
-- and has a second slash after the last of them, or before the first, makes `vfs_open` panic, whatever
-- stands after it: `vfs_locate_node` asserts that its path does not begin with a slash.
pub double_slash_panics :
    (v : Vfs) (path more : Text) (names : List Text)
    → Trims path (along names (slash ∷ more))
    → Directories v root_node names
    → vfs_open v path ≡ panic assertion
unfolding locate
double_slash_panics v path more names t d =
    let trimmed = along names (slash ∷ more) in
    let (f, e) =
      locate-along (suc (length trimmed)) v root_node names (slash ∷ more) d refl (omega arith) in
    vfs_open-Trims v path trimmed t
    ∙ ap
        (λ o.
          o >>= λ r. elim r [ none ↦ done none | some (parent, name) ↦ open_node v parent name ])
        (e ∙ locate_slash f v (node_at root_node names) more)

-- What `vfs_open` opens where its path comes to a file.
open_at_file :
    (v : Vfs) (path name rest trimmed : Text) (names : List Text) (s : Stat)
    → Trims path (along names trimmed)
    → Directories v root_node names
    → is_empty trimmed ≡ false
    → starts_with_slash trimmed ≡ false
    → split_name trimmed ≡ (name, rest)
    → stat v (node_at root_node names) name ≡ done (some s)
    → s.is_dir ≡ false
    → s.mount ≡ none
    → vfs_open v path ≡ open_node v (node_at root_node names) name
unfolding locate
open_at_file v path name rest trimmed names s t d some_left rel sp st file m =
    let whole = along names trimmed in
    let (f, e) =
      locate-along (suc (length whole)) v root_node names trimmed d some_left (omega arith) in
    vfs_open-Trims v path whole t
    ∙ ap
        (λ o.
          o >>= λ r. elim r [ none ↦ done none | some (parent, name) ↦ open_node v parent name ])
        (e ∙ stops f v (node_at root_node names) trimmed name rest s rel sp st file m)

-- A path that goes on below a file opens the same as the path that ends with the file: what follows the
-- file's name is ignored. Both paths, with white space and one slash off each end, go through the names
-- of the same directories, with no mount on the file.
pub open_below_file :
    (v : Vfs) (long short name rest : Text) (names : List Text) (s : Stat)
    → Trims long (along names (name ++ slash ∷ rest))
    → Trims short (along names name)
    → Directories v root_node names
    → IsName name
    → stat v (node_at root_node names) name ≡ done (some s)
    → s.is_dir ≡ false
    → s.mount ≡ none
    → (vfs_open v long ≡ vfs_open v short)
      × (vfs_open v short ≡ open_node v (node_at root_node names) name)
open_below_file v long short name rest names s tl ts d n st file m =
    let (rel, left) = name_first name (slash ∷ rest) n in
    let rel_last : starts_with_slash name ≡ false =
      ap starts_with_slash (sym (append-nil name)) ∙ (name_first name [] n).0 in
    let here =
      open_at_file v short name [] name names s ts d n.not_empty rel_last
        (split_name-last name n.no_slash) st file m in
    let below =
      open_at_file v long name rest (name ++ slash ∷ rest) names s tl d left rel
        (split_name-name name rest n.no_slash) st file m in
    (below ∙ sym here, here)
