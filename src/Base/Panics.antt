-- ===== src/Base/Panics.antt =====
-- Code that may panic (an `assert`, an `unwrap`, an index out of range, `unreachable!`).
use mathlib.Core.Bool.{Bool, true, false}
use mathlib.Core.Option.{Option, none, some}
use mathlib.Core.Path.{◌≡◌, refl}

pub data Panic : Type 0 where
  -- `assert!`, `debug_assert!`
  assertion : Panic
  -- `unwrap` of `None` or of an error
  unwrap_none : Panic
  index_out_of_range : Panic
  -- arithmetic past the end of a machine word
  overflow : Panic
  -- `panic!`, `unreachable!`, `unimplemented!`
  explicit : Panic

pub data Outcome {ℓ} (A : Type ℓ) : Type ℓ where
  done : A → Outcome A
  panic : Panic → Outcome A

infixl 5 ◌>>=◌ ◌>>◌
abbrev pub ◌>>=◌ {ℓ κ} : {A : Type ℓ} {B : Type κ} → Outcome A → (A → Outcome B) → Outcome B
done a >>= f = f a
panic p >>= f = panic p

abbrev pub ◌>>◌ {ℓ} : {B : Type ℓ} → Outcome (Unit {0}) → Outcome B → Outcome B
m >> k = m >>= λ _. k

abbrev pub assert : Bool → Outcome (Unit {0})
assert true = done tt
assert false = panic assertion

abbrev pub unwrap {ℓ} : {A : Type ℓ} → Option A → Outcome A
unwrap none = panic unwrap_none
unwrap (some a) = done a

-- Inversion of a successful bind, for proofs where the parts stay shut.
pub >>=-eq-done {ℓ κ} :
    {A : Type ℓ} {B : Type κ} (m : Outcome A) (f : A → Outcome B) {b : B}
    → (m >>= f) ≡ done b
    → (a : A) × (m ≡ done a) × (f a ≡ done b)
>>=-eq-done (done a) f h = (a, refl, h)
>>=-eq-done (panic p) f h = cc
