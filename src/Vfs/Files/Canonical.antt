-- ===== src/Vfs/Files/Canonical.antt =====
-- `canonicalize` of modules/vfs/src/lib.rs: the segments of its result.
use sophon_rpi_cross.Base.{
  ◌≡◌, sym, ◌∙◌, ap, false, Option, none, some, List, ◌∷◌, ◌++◌, done, arith, Option-cases, inl,
  inr,
}
use mathlib.Core.List.{reverse, reverse-reverse}
use sophon_rpi_cross.Base.Text.{Text, slash, split, join, starts_with_slash, strip_prefix_slash}
use sophon_rpi_cross.Vfs.Files.{segments, apply_segments, canonicalize}
use sophon_rpi_cross.Vfs.Segments.{
  AllNames, split-NoSlash, segments-NoSlash, apply_segments-AllNames, apply_segments-append,
  segments-split-join, segments_of, segments_of-append, segments_of-strip, AllNames-reverse,
}

-- The canonical form of a relative path by its segments.
abbrev pub absolute_path : Option (List Text) → Option Text
absolute_path none = none
absolute_path (some buf) = some (slash ∷ join (reverse buf))

canonicalize_lem :
    (cwd base s : Text)
    → strip_prefix_slash cwd ≡ some base
    → starts_with_slash s ≡ false
    → canonicalize cwd s
      ≡ done (absolute_path (apply_segments (reverse (segments_of base)) (segments_of s)))
unfolding canonicalize
canonicalize_lem cwd base s e rel = let strip = segments_of-strip s in ground (arith, strip)

-- Where a relative path has a canonical form, from a working directory whose segments are names,
-- the segments of that form are names (none is empty, "." or "..", and none holds a slash), and
-- they are the segments of the path applied to those of the working directory.
pub canonicalize-AllNames :
    (cwd base s t : Text)
    → strip_prefix_slash cwd ≡ some base
    → AllNames (segments (split base))
    → starts_with_slash s ≡ false
    → canonicalize cwd s ≡ done (some t)
    → (ws : List Text) × (t ≡ slash ∷ join ws)
      × AllNames ws
      × (segments (split (join ws)) ≡ ws)
      × (apply_segments (reverse (segments (split base))) (segments (split s)) ≡ some (reverse ws))
canonicalize-AllNames cwd base s t e a rel h = elim (Option-cases applied) [
  | inl n ↦ ground (arith, canonicalize_lem cwd base s e rel, n)
  | inr (buf, n) ↦
      let names =
        apply_segments-AllNames (reverse (segments_of base)) (segments_of s) buf
          (AllNames-reverse (segments_of base) a) (segments-NoSlash (split s) (split-NoSlash s))
          n in
      let ws = reverse buf in
      let clean = AllNames-reverse buf names in
      (
        ws,
        ground (arith, canonicalize_lem cwd base s e rel, n),
        clean,
        segments-split-join ws clean,
        n ∙ ap some (sym (reverse-reverse buf)),
      )
]
  where
    applied : Option (List Text)
    applied = apply_segments (reverse (segments_of base)) (segments_of s)

-- Where `a`, `b` and `a/b` are relative and the segments of the working directory are names, going
-- to `a`, if that has a canonical form, and from there to `b` is going to `a/b`, errors of the
-- second step included.
pub canonicalize-canonicalize :
    (cwd base a b t : Text)
    → strip_prefix_slash cwd ≡ some base
    → AllNames (segments (split base))
    → starts_with_slash a ≡ false
    → starts_with_slash b ≡ false
    → starts_with_slash (a ++ slash ∷ b) ≡ false
    → canonicalize cwd a ≡ done (some t)
    → canonicalize t b ≡ canonicalize cwd (a ++ slash ∷ b)
canonicalize-canonicalize cwd base a b t e names ra rb rab h =
    let (ws, te, clean, back, from) = canonicalize-AllNames cwd base a t e names ra h in
    let strip_t : strip_prefix_slash t ≡ some (join ws) = ground arith in
    let start = reverse (segments_of base) in
    let both : apply_segments start (segments_of (a ++ slash ∷ b))
        ≡ apply_segments (reverse ws) (segments_of b) =
      ap (apply_segments start) (segments_of-append a b)
      ∙ apply_segments-append (segments_of a) (segments_of b) start
      ∙ ground (arith, from) in
    canonicalize_lem t (join ws) b strip_t rb
    ∙ ap (λ (us : List Text). done (absolute_path (apply_segments (reverse us) (segments_of b))))
        back
    ∙ ap (λ (r : Option (List Text)). done (absolute_path r)) (sym both)
    ∙ sym (canonicalize_lem cwd base (a ++ slash ∷ b) e rab)
