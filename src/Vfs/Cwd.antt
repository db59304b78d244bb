-- ===== src/Vfs/Cwd.antt =====
-- modules/vfs/src/lib.rs: what the VFS keeps of a process, and its working directory.
use sophon_rpi_cross.Base.{
  ℕ, ◌||◌, Option, none, some, List, [], ◌∷◌, Outcome, done, ◌>>=◌, unwrap, if◌then◌else◌,
  replicate,
}
use mathlib.Core.List.{reverse}
use sophon_rpi_cross.Base.Text.{
  Text, text, text_eq, slash, is_empty, split, join, starts_with_slash, ends_with_slash, drop_last,
  strip_prefix_slash,
}
use sophon_rpi_cross.Vfs.Nodes.{Vfs, Node}
use sophon_rpi_cross.Vfs.Paths.{vfs_open, dir_or_mnt_exists}

pub record FileDescriptor : Type 0 where
  pub node : Node
  pub offset : ℕ

pub record ProcData : Type 0 where
  pub nodes : List (Option FileDescriptor)
  pub cwd : Text
  pub files : ℕ

abbrev pub at_start : Node → FileDescriptor
at_start n = record { node = n; offset = 0 }

-- `ProcData::new`. `parent` is the data of the current process, if there is one.
unfoldable pub new_proc_data : Vfs → Option ProcData → Text → Outcome ProcData
new_proc_data v parent cwd₀ = do
  let cwd = if is_empty cwd₀ then elim parent [ none ↦ slash ∷ [] | some p ↦ p.cwd ] else cwd₀
  found ← vfs_open v (text "/dev/tty.serial")
  stdio ← unwrap found
  let f : Option FileDescriptor = some (at_start stdio)
  done (record { nodes = f ∷ f ∷ f ∷ replicate 13 none; cwd = cwd; files = 3 })

-- `.split("/").filter(|x| !x.is_empty())`
abbrev pub segments : List Text → List Text
segments [] = []
segments (w ∷ ws) = let rest = segments ws in if is_empty w then rest else w ∷ rest

abbrev pub dot : Text
dot = text "."

abbrev pub dots : Text
dots = text ".."

-- The loop of `canonicalize`. The last segment of `buf` stands first; `none` is `Err`.
unfoldable pub apply_segments : List Text → List Text → Option (List Text)
apply_segments buf [] = some buf
apply_segments buf (seg ∷ segs) =
    let stay = apply_segments buf segs in
    let down = apply_segments (seg ∷ buf) segs in
    let up : Option (List Text) = elim buf [ [] ↦ none | w ∷ ws ↦ apply_segments ws segs ] in
    if text_eq seg dot || is_empty seg then stay else if text_eq seg dots then up else down

-- `strip_suffix("/")`
abbrev pub strip_suffix_slash : Text → Text
strip_suffix_slash s = if ends_with_slash s then drop_last s else s

-- `ProcData::canonicalize`. The inner test of `starts_with` cannot succeed. The `unwrap` panics where
-- the working directory does not begin with a slash.
unfoldable pub canonicalize : Text → Text → Outcome (Option Text)
unfolding apply_segments
canonicalize cwd s = if starts_with_slash s then done (some s) else do
  base ← unwrap (strip_prefix_slash cwd)
  done
      (elim (apply_segments (reverse (segments (split base)))
        (segments (split (strip_suffix_slash s)))) [
          | none ↦ none
          | some buf ↦ some (slash ∷ join (reverse buf))
        ])

-- `ProcData::set_cwd`
unfoldable pub set_cwd : Vfs → ProcData → Text → Outcome (Option ProcData)
set_cwd v p path = do
  r ← canonicalize p.cwd path
  elim r [
    | none ↦ done none
    | some cwd ↦ (do
      there ← dir_or_mnt_exists v cwd
      done (if there then some (record p { cwd = cwd }) else none))
  ]
