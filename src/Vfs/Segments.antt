-- ===== src/Vfs/Segments.antt =====
-- Segments of a path: splitting and joining, and the loop of `canonicalize` of modules/vfs/src/lib.rs.
use sophon_rpi_cross.Base.{
  ℕ, ◌≡◌, ◌≢◌, refl, sym, subst, ◌∙◌, ap, Bool, true, false, ◌||◌, none, some, List, [], ◌∷◌, ◌++◌,
  if◌then◌else◌, ◌==◌, arith, Bool-cases, inl, inr,
}
use mathlib.Core.List.{reverse, reverse-cons, append-nil}
use sophon_rpi_cross.Base.Text.{
  Text, text_eq, slash, is_empty, split, cons_first, join, ends_with_slash, drop_last,
}
use sophon_rpi_cross.Vfs.Cwd.{segments, apply_segments, strip_suffix_slash, dot, dots}

abbrev pub has_slash : Text → Bool
has_slash [] = false
has_slash (c ∷ s) = let rest = has_slash s in if c == slash then true else rest

-- A name that a directory can hold.
pub record IsName (w : Text) : Type 0 where
  pub not_empty : is_empty w ≡ false
  pub no_slash : has_slash w ≡ false
  pub not_dot : text_eq w dot ≡ false
  pub not_dots : text_eq w dots ≡ false

abbrev pub AllNames : List Text → Type 0
AllNames [] = Unit {0}
AllNames (w ∷ ws) = IsName w × AllNames ws

abbrev pub NoSlash : List Text → Type 0
NoSlash [] = Unit {0}
NoSlash (w ∷ ws) = (has_slash w ≡ false) × NoSlash ws

pub cons_first-NoSlash :
    (c : ℕ) (ws : List Text) → (c == slash) ≡ false → NoSlash ws → NoSlash (cons_first c ws)
cons_first-NoSlash c [] h n = (ground arith, tt)
cons_first-NoSlash c (w ∷ ws) h n = (ground (arith, n.0), n.1)

pub split-NoSlash : (s : Text) → NoSlash (split s)
split-NoSlash [] = (refl, tt)
split-NoSlash (c ∷ s) = elim (Bool-cases (c == slash)) [
  | inl y ↦ rw y (refl, split-NoSlash s)
  | inr n ↦ rw n (cons_first-NoSlash c (split s) n (split-NoSlash s))
]

pub segments-NoSlash : (ws : List Text) → NoSlash ws → NoSlash (segments ws)
segments-NoSlash [] n = tt
segments-NoSlash (w ∷ ws) n = elim (Bool-cases (is_empty w)) [
  | inl y ↦ rw y (segments-NoSlash ws n.1)
  | inr f ↦ rw f (n.0, segments-NoSlash ws n.1)
]

-- The loop adds names only, and takes off names that are there.
pub apply_segments-AllNames :
    (buf segs r : List Text)
    → AllNames buf
    → NoSlash segs
    → apply_segments buf segs ≡ some r
    → AllNames r
unfolding apply_segments
apply_segments-AllNames buf [] r a n h = let e : buf ≡ r = ground arith in subst AllNames e a
apply_segments-AllNames [] (w ∷ ws) r a n h = elim (Bool-cases (text_eq w dot || is_empty w)) [
  | inl skip ↦ apply_segments-AllNames [] ws r a n.1 (ground arith)
  | inr take ↦ elim (Bool-cases (text_eq w dots)) [
    | inl up ↦ ground arith
    | inr down ↦
        apply_segments-AllNames (w ∷ []) ws r
          (
            record {
              not_empty = ground arith;
              no_slash = n.0;
              not_dot = ground arith;
              not_dots = down;
            },
            tt,
          )
          n.1 (ground arith)
  ]
]
apply_segments-AllNames (b ∷ bs) (w ∷ ws) r a n h =
    elim (Bool-cases (text_eq w dot || is_empty w)) [
      | inl skip ↦ apply_segments-AllNames (b ∷ bs) ws r a n.1 (ground arith)
      | inr take ↦ elim (Bool-cases (text_eq w dots)) [
        | inl up ↦ apply_segments-AllNames bs ws r a.1 n.1 (ground arith)
        | inr down ↦
            apply_segments-AllNames (w ∷ b ∷ bs) ws r
              (
                record {
                  not_empty = ground arith;
                  no_slash = n.0;
                  not_dot = ground arith;
                  not_dots = down;
                },
                (a.0, a.1),
              )
              n.1 (ground arith)
      ]
    ]

-- Applying segments in two parts is applying them at once.
pub apply_segments-append :
    (xs ys buf : List Text)
    → apply_segments buf (xs ++ ys)
      ≡ elim (apply_segments buf xs) [ none ↦ none | some b ↦ apply_segments b ys ]
unfolding apply_segments
apply_segments-append [] ys buf = refl
apply_segments-append (w ∷ ws) ys [] =
    ground (arith, apply_segments-append ws ys [], apply_segments-append ws ys (w ∷ []))
apply_segments-append (w ∷ ws) ys (b ∷ bs) = ground (
  arith,
  apply_segments-append ws ys (b ∷ bs),
  apply_segments-append ws ys bs,
  apply_segments-append ws ys (w ∷ b ∷ bs),
)

-- Splitting what was joined gives the names back.
pub split-append-slash :
    (w rest : Text) → has_slash w ≡ false → split (w ++ slash ∷ rest) ≡ w ∷ split rest
split-append-slash [] rest h = refl
split-append-slash (c ∷ w) rest h = ground (arith, split-append-slash w rest)

pub split_name_only : (w : Text) → has_slash w ≡ false → split w ≡ w ∷ []
split_name_only [] h = refl
split_name_only (c ∷ w) h = ground (arith, split_name_only w)

pub split-join : (w : Text) (ws : List Text) → AllNames (w ∷ ws) → split (join (w ∷ ws)) ≡ w ∷ ws
split-join w [] a = split_name_only w a.0.no_slash
split-join w (v ∷ ws) a =
    split-append-slash w (join (v ∷ ws)) a.0.no_slash
    ∙ ap (λ (r : List Text). w ∷ r) (split-join v ws a.1)

pub segments_names : (ws : List Text) → AllNames ws → segments ws ≡ ws
segments_names [] a = refl
segments_names (w ∷ ws) a = ground (arith, a.0.not_empty, segments_names ws a.1)

-- The segments of a joined list of names are those names.
pub segments-split-join : (ws : List Text) → AllNames ws → segments (split (join ws)) ≡ ws
segments-split-join [] a = refl
segments-split-join (w ∷ ws) a = rw (split-join w ws a) (segments_names (w ∷ ws) a)

-- Text split at a slash.
pub split-nonempty : (s : Text) → split s ≢ []
split-nonempty [] e = cc
split-nonempty (c ∷ s) e = elim (Bool-cases (c == slash)) [
  | inl y ↦ ground arith
  | inr n ↦ cons_first-nonempty c (split s) (ground arith)
]
  where
    cons_first-nonempty : (d : ℕ) (ws : List Text) → cons_first d ws ≡ [] → ⊥
    cons_first-nonempty d [] h = cc
    cons_first-nonempty d (w ∷ ws) h = cc

pub cons_first-append :
    (c : ℕ) (xs ys : List Text) → xs ≢ [] → cons_first c (xs ++ ys) ≡ cons_first c xs ++ ys
cons_first-append c [] ys h = absurd (h refl)
cons_first-append c (x ∷ xs) ys h = refl

pub split-append : (a b : Text) → split (a ++ slash ∷ b) ≡ split a ++ split b
split-append [] b = refl
split-append (c ∷ a) b = elim (Bool-cases (c == slash)) [
  | inl y ↦ rw (y, split-append a b)
  | inr n ↦ rw (n, split-append a b) (cons_first-append c (split a) (split b) (split-nonempty a))
]

pub segments-append : (xs ys : List Text) → segments (xs ++ ys) ≡ segments xs ++ segments ys
segments-append [] ys = refl
segments-append (w ∷ ws) ys = ground (arith, segments-append ws ys)

abbrev pub segments_of : Text → List Text
segments_of s = segments (split s)

pub segments_of-append :
    (a b : Text) → segments_of (a ++ slash ∷ b) ≡ segments_of a ++ segments_of b
segments_of-append a b = rw (split-append a b) (segments-append (split a) (split b))

pub drop_last-append : (s : Text) → ends_with_slash s ≡ true → drop_last s ++ slash ∷ [] ≡ s
drop_last-append [] h = cc
drop_last-append (c ∷ []) h = ground arith
drop_last-append (c ∷ d ∷ s) h = ap (λ (r : Text). c ∷ r) (drop_last-append (d ∷ s) h)

-- A slash at the end adds no segment.
pub segments_of-strip : (s : Text) → segments_of (strip_suffix_slash s) ≡ segments_of s
segments_of-strip s = elim (Bool-cases (ends_with_slash s)) [
  | inl y ↦ rw y (
      sym (append-nil (segments_of (drop_last s)))
      ∙ sym (segments_of-append (drop_last s) [])
      ∙ ap segments_of (drop_last-append s y))
  | inr n ↦ rw n
]

pub AllNames-append : (xs ys : List Text) → AllNames xs → AllNames ys → AllNames (xs ++ ys)
AllNames-append [] ys a b = b
AllNames-append (x ∷ xs) ys a b = (a.0, AllNames-append xs ys a.1 b)

pub AllNames-reverse : (xs : List Text) → AllNames xs → AllNames (reverse xs)
AllNames-reverse [] a = tt
AllNames-reverse (x ∷ xs) a =
    rw (reverse-cons x xs)
      (AllNames-append (reverse xs) (x ∷ []) (AllNames-reverse xs a.1) (a.0, tt))
