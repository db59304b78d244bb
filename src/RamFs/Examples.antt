-- ===== src/RamFs/Examples.antt =====
-- A small file tree, and the theorems of libs/vfs/src/ramfs.rs at it.
use sophon_rpi_cross.Base.{◌≡◌, refl, [], ◌∷◌, done, arith}
use sophon_rpi_cross.Base.Text.{text}
use sophon_rpi_cross.RamFs.{file, dir, mnt, Dir, end, item, get, insert, mount, lookup}
use sophon_rpi_cross.RamFs.Names.{names, names_fuel, look}
use sophon_rpi_cross.RamFs.Insert.{Placed, relate, insert-Placed, mount-Placed}
use sophon_rpi_cross.RamFs.Total.{IsOpen, insert-done}

abbrev etc : Dir
etc = item (text "f") (file (1 ∷ 2 ∷ [])) end

-- `etc/f` and `init`.
abbrev tree : Dir
tree = item (text "etc") (dir etc) (item (text "init") (file (7 ∷ [])) end)

abbrev tree_with_file : Dir
tree_with_file =
    item (text "etc")
      (dir (item (text "f") (file (1 ∷ 2 ∷ [])) (item (text "g") (file (9 ∷ [])) end)))
      (item (text "init") (file (7 ∷ [])) end)

abbrev tree_with_mount : Dir
tree_with_mount = item (text "dev") (mnt 0) tree

-- `etc/f` stays when `etc/g` is inserted.
insert-Placed_example :
    Placed
      (relate (names (text "etc/g")) (names (text "etc/f")))
      (file (9 ∷ []))
      (get tree (text "etc/f"))
      (get tree_with_file (text "etc/f"))
unfolding insert
insert-Placed_example =
    insert-Placed tree tree_with_file (text "etc/g") (9 ∷ []) (text "etc/f") refl

-- The mount point is found at `dev`.
mount-Placed_example :
    Placed
      (relate (names (text "dev")) (names (text "dev")))
      (mnt 0)
      (get tree (text "dev"))
      (get tree_with_mount (text "dev"))
unfolding mount
mount-Placed_example = mount-Placed tree tree_with_mount (text "dev") 0 (text "dev") refl

etc-IsOpen : IsOpen tree (text "etc" ∷ text "g" ∷ [])
unfolding look lookup
etc-IsOpen [] h = refl
etc-IsOpen (w ∷ []) h = ground arith
etc-IsOpen (w ∷ v ∷ vs) h = ground arith

insert-done_example : (d' : Dir) × (insert tree (text "etc/g") (9 ∷ []) ≡ done d')
unfolding get names names_fuel
insert-done_example = insert-done tree (text "etc/g") (9 ∷ []) etc-IsOpen refl
