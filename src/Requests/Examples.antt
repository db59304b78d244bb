-- ===== src/Requests/Examples.antt =====
-- Requests at concrete values.
use sophon_rpi_cross.Base.{◌≡◌, refl, [], ◌∷◌, done, ◌>>=◌, arith}
use sophon_rpi_cross.Base.Text.{text}
use sophon_rpi_cross.Vfs.Files.{write_file}
use sophon_rpi_cross.Requests.{as_buf, from_buf, Memory, Places, vfs_as_raw, vfs_from_raw}
use sophon_rpi_cross.Requests.RoundTrip.{Stored, vfs_from_raw-vfs_as_raw}

abbrev callers_memory : Memory
callers_memory = record {
  str_at = λ a. text "/etc";
  slice_at = λ a. 104 ∷ 105 ∷ [];
  buffer_at = λ a. 16;
}

abbrev places : Places
places = record { path = 0x1000; name = 0x1010; buf = 0x1020 }

write-Stored : Stored callers_memory places (write_file 4 (104 ∷ 105 ∷ []))
unfolding Stored
write-Stored = (omega arith, refl)

vfs_from_raw-vfs_as_raw_example :
    (do
      raw ← from_buf (as_buf (vfs_as_raw places (write_file 4 (104 ∷ 105 ∷ []))))
      vfs_from_raw callers_memory raw)
    ≡ done (write_file 4 (104 ∷ 105 ∷ []))
vfs_from_raw-vfs_as_raw_example =
    vfs_from_raw-vfs_as_raw callers_memory places (write_file 4 (104 ∷ 105 ∷ [])) write-Stored
