-- ===== src/RamFs/Insert.antt =====
-- What `insert` and `mount` of libs/vfs/src/ramfs.rs change in the tree, and what they leave.
use sophon_rpi_cross.Base.{
  ℕ, ◌≡◌, refl, sym, subst, ◌∙◌, true, false, Option, none, some, List, [], ◌∷◌, done,
  if◌then◌else◌, arith, Option-cases, Bool-cases, inl, inr, >>=-eq-done,
}
use sophon_rpi_cross.Base.Text.{Text, text_eq, text_eq→eq, text_eq_iff}
use sophon_rpi_cross.RamFs.{
  Entry, file, dir, mnt, Dir, end, item, lookup, put, get, fuel_for, place_fuel, sub_dir, insert,
  mount,
}
use sophon_rpi_cross.RamFs.Names.{look, names, place_at, get-look, place_fuel-names}

-- How the path `q` lies to the path `p`: at it, above it, below it, or elsewhere.
pub data Relation : Type 0 where
  same above below apart : Relation

abbrev pub relate : List Text → List Text → Relation
relate [] [] = same
relate (w ∷ ws) [] = above
relate [] (v ∷ vs) = below
relate (w ∷ ws) (v ∷ vs) = let rest = relate ws vs in if text_eq w v then rest else apart

-- What a look at `q` gives after `e` was placed at `p`, from what it gave before.
abbrev pub Placed : Relation → Entry → Option Entry → Option Entry → Type 0
Placed same e before after = after ≡ some e
Placed above e before after = (d : Dir) × (after ≡ some (dir d))
Placed below e before after = after ≡ none
Placed apart e before after = after ≡ before

pub lookup-put :
    (j k : Text) (e : Entry) (d : Dir)
    → lookup j (put k e d) ≡ (if text_eq k j then some e else lookup j d)
unfolding lookup put
lookup-put j k e end = refl
lookup-put j k e (item i v rest) =
    ground (arith, lookup-put j k e rest, text_eq_iff i k, text_eq_iff k j, text_eq_iff i j)

abbrev pub IsLeaf : Entry → Type 0
IsLeaf (dir d) = ⊥
IsLeaf _ = Unit {0}

-- A look below a directory entry, by the entry of the first name.
abbrev pub look_in : Option Entry → List Text → Option Entry
look_in none vs = none
look_in (some e) vs = look e vs

pub look-dir :
    (d : Dir) (v : Text) (vs : List Text) → look (dir d) (v ∷ vs) ≡ look_in (lookup v d) vs
unfolding look
look-dir d v vs = ground arith

pub leaf_below : (e : Entry) (v : Text) (vs : List Text) → IsLeaf e → look e (v ∷ vs) ≡ none
unfolding look
leaf_below (file b) v vs h = refl
leaf_below (mnt m) v vs h = refl
leaf_below (dir d) v vs h = absurd h

-- A directory that was made for the path has nothing in it yet.
pub empty_below : (v : Text) (vs : List Text) → look (dir end) (v ∷ vs) ≡ none
unfolding look lookup
empty_below v vs = refl

look-put :
    (d : Dir) (w v : Text) (e : Entry) (vs : List Text)
    → look (dir (put w e d)) (v ∷ vs) ≡ look_in (if text_eq w v then some e else lookup v d) vs
look-put d w v e vs = rw (look-dir (put w e d) v vs, lookup-put v w e d)

-- Away from the name that is put, nothing changes.
look-put_ne :
    (d : Dir) (w v : Text) (e : Entry) (vs : List Text)
    → text_eq w v ≡ false
    → look (dir (put w e d)) (v ∷ vs) ≡ look (dir d) (v ∷ vs)
look-put_ne d w v e vs n = rw (look-put d w v e vs, n, look-dir d v vs)

look-put_eq :
    (d : Dir) (w v : Text) (e : Entry) (vs : List Text)
    → text_eq w v ≡ true
    → look (dir (put w e d)) (v ∷ vs) ≡ look e vs
look-put_eq d w v e vs y = rw (look-put d w v e vs, y)

place_last-eq : (d d' : Dir) (w : Text) (e : Entry) → place_at d w [] e ≡ done d' → d' ≡ put w e d
unfolding place_at
place_last-eq d d' w e h = ground arith

place_last :
    (d : Dir) (w : Text) (e : Entry) (q : List Text)
    → IsLeaf e
    → Placed (relate (w ∷ []) q) e (look (dir d) q) (look (dir (put w e d)) q)
place_last d w e [] leaf = (put w e d, unfold look in refl)
place_last d w e (v ∷ []) leaf = elim (Bool-cases (text_eq w v)) [
  | inl y ↦ rw y (look-put_eq d w v e [] y ∙ unfold look in refl)
  | inr n ↦ rw n (look-put_ne d w v e [] n)
]
place_last d w e (v ∷ u ∷ vs) leaf = elim (Bool-cases (text_eq w v)) [
  | inl y ↦ rw y (look-put_eq d w v e (u ∷ vs) y ∙ leaf_below e u vs leaf)
  | inr n ↦ rw n (look-put_ne d w v e (u ∷ vs) n)
]

-- The directory under a name that `place_at` goes on in.
data Goes (d : Dir) (w : Text) (sub : Dir) : Type 0 where
  into : lookup w d ≡ some (dir sub) → Goes d w sub
  made : lookup w d ≡ none → sub ≡ end → Goes d w sub

goes : (d : Dir) (w : Text) (sub : Dir) → sub_dir (lookup w d) ≡ done sub → Goes d w sub
goes d w sub h = elim (Option-cases (lookup w d)) [
  | inl e ↦ made e (ground arith)
  | inr (file b, e) ↦ ground arith
  | inr (mnt m, e) ↦ ground arith
  | inr (dir s, e) ↦ into (ground arith)
]

-- What was below the name before, if anything.
look_before :
    (d : Dir) (w v : Text) (sub : Dir) (u : Text) (vs : List Text)
    → Goes d w sub
    → text_eq w v ≡ true
    → look (dir d) (v ∷ u ∷ vs) ≡ look (dir sub) (u ∷ vs)
look_before d w v sub u vs (into e) y = ground (arith, look-dir d v (u ∷ vs), text_eq→eq w v y, e)
look_before d w v sub u vs (made e s) y =
    ground (arith, look-dir d v (u ∷ vs), text_eq→eq w v y, e, s, empty_below u vs)

Placed-before :
    (r : Relation) (e : Entry) (b b' a : Option Entry) → b ≡ b' → Placed r e b a → Placed r e b' a
Placed-before r e b b' a h p = subst (λ x. Placed r e x a) h p

-- What was placed below the name, seen from the directory above.
place_under :
    (x : Text) (xs : List Text) (d sub sub' : Dir) (w : Text) (e : Entry) (q : List Text)
    → Goes d w sub
    → ((q' : List Text) → Placed (relate (x ∷ xs) q') e (look (dir sub) q') (look (dir sub') q'))
    → Placed (relate (w ∷ x ∷ xs) q) e (look (dir d) q) (look (dir (put w (dir sub') d)) q)
place_under x xs d sub sub' w e [] g ih = (put w (dir sub') d, unfold look in refl)
place_under x xs d sub sub' w e (v ∷ vs) g ih = elim (Bool-cases (text_eq w v)) [
  | inr n ↦ rw n (look-put_ne d w v (dir sub') vs n)
  | inl y ↦ rw (y, look-put_eq d w v (dir sub') vs y) (inside vs y)
]
  where
    inside :
        (us : List Text)
        → text_eq w v ≡ true
        → Placed (relate (x ∷ xs) us) e (look (dir d) (v ∷ us)) (look (dir sub') us)
    inside [] y = ih []
    inside (u ∷ us) y =
        Placed-before (relate (x ∷ xs) (u ∷ us)) e _ _ _ (sym (look_before d w v sub u us g y))
          (ih (u ∷ us))

place_at-parts :
    (x : Text) (xs : List Text) (d d' : Dir) (w : Text) (e : Entry)
    → place_at d w (x ∷ xs) e ≡ done d'
    → (sub : Dir) × (sub' : Dir) × (sub_dir (lookup w d) ≡ done sub)
      × (place_at sub x xs e ≡ done sub')
      × (d' ≡ put w (dir sub') d)
unfolding place_at
place_at-parts x xs d d' w e h =
    let (sub, es, h₁) = >>=-eq-done (sub_dir (lookup w d)) _ h in
    let (sub', es', h₂) = >>=-eq-done (place_at sub x xs e) _ h₁ in
    (sub, sub', es, es', ground arith)

place_at-Placed :
    (ws : List Text) (d d' : Dir) (w : Text) (e : Entry)
    → IsLeaf e
    → place_at d w ws e ≡ done d'
    → (q : List Text) → Placed (relate (w ∷ ws) q) e (look (dir d) q) (look (dir d') q)
place_at-Placed [] d d' w e leaf h q = rw (place_last-eq d d' w e h) (place_last d w e q leaf)
place_at-Placed (x ∷ xs) d d' w e leaf h q =
    let (sub, sub', es, es', eq) = place_at-parts x xs d d' w e h in
    rw eq (
      place_under x xs d sub sub' w e q (goes d w sub es)
        (place_at-Placed xs sub sub' x e leaf es'))

place-Placed :
    (d d' : Dir) (path : Text) (e : Entry)
    → IsLeaf e
    → place_fuel (fuel_for path) d path e ≡ done d'
    → (q : Text) → Placed (relate (names path) (names q)) e (get d q) (get d' q)
place-Placed d d' path e leaf h q =
    let (w, ws, ns, eq) = place_fuel-names d path e in
    rw (ns, get-look d q, get-look d' q) (place_at-Placed ws d d' w e leaf (sym eq ∙ h) (names q))

-- After an `insert` that does not panic, `get` at any path `q` gives: the new file, if `q` goes
-- through the same names; a directory, if `q` lies above; nothing, if `q` lies below the file; and
-- what it gave before otherwise.
pub insert-Placed :
    (d d' : Dir) (path : Text) (bytes : List ℕ) (q : Text)
    → insert d path bytes ≡ done d'
    → Placed (relate (names path) (names q)) (file bytes) (get d q) (get d' q)
unfolding insert
insert-Placed d d' path bytes q h = place-Placed d d' path (file bytes) tt h q

-- After a `mount` that does not panic, `get` at any path `q` gives: the mount point, if `q` goes
-- through the same names; a directory, if `q` lies above; nothing, if `q` lies below the mount
-- point; and what it gave before otherwise.
pub mount-Placed :
    (d d' : Dir) (path : Text) (key : ℕ) (q : Text)
    → mount d path key ≡ done d'
    → Placed (relate (names path) (names q)) (mnt key) (get d q) (get d' q)
unfolding mount
mount-Placed d d' path key q h = place-Placed d d' path (mnt key) tt h q
