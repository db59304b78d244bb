-- ===== src/Base/Maps.antt =====
-- A map with numbers for keys is a function: what a `BTreeMap` or an array with a slot per core
-- holds at each key. No code reads such a map in order.
use Prim.Native.Nat.{ℕ}
use mathlib.Core.Path.{◌≡◌}
use mathlib.Core.Logic.{◌≢◌}
use native.Mathlib.Omega.{arith}
use sophon_rpi_cross.Base.Tests.{◌==◌, if◌then◌else◌}

module _ {ℓ} {A : Type ℓ} where
  abbrev pub update : (ℕ → A) → ℕ → A → ℕ → A
  update m k v j = if k == j then v else m j

  pub update_self : (m : ℕ → A) (k : ℕ) (v : A) → update m k v k ≡ v
  update_self m k v = ground arith

  pub update_ne : (m : ℕ → A) (k j : ℕ) (v : A) → k ≢ j → update m k v j ≡ m j
  update_ne m k j v h = ground arith
