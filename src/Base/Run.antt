-- ===== src/Base/Run.antt =====
-- Code that may die in an `assert`. `binding.gyp` does not define `NDEBUG`, so a failed assertion
-- ends the process: nothing runs after `abort`.
use mathlib.Core.Path.{◌≡◌, refl}
use mathlib.Core.Bool.{Bool, true, false}

-- The assertions of src/vcdiff.cc and src/vcd_hashed_dictionary.cc, and the one of node's
-- `ObjectWrap::Unwrap`, which refuses an object that wraps no native one.
pub data Assertion : Type 0 where
  write_after_finalization : Assertion
  write_already_in_progress : Assertion
  close_is_pending : Assertion
  output_buffer_not_empty : Assertion
  bad_work_status : Assertion
  invalid_operation_mode : Assertion
  buffer_required : Assertion
  not_a_wrapped_object : Assertion
  wrong_argument_count : Assertion

pub data Run {ℓ} (A : Type ℓ) : Type ℓ where
  return : A → Run A
  abort : Assertion → Run A

infixl 5 ◌>>=◌ ◌>>◌
abbrev pub ◌>>=◌ {ℓ κ} : {A : Type ℓ} {B : Type κ} → Run A → (A → Run B) → Run B
return a >>= f = f a
abort e >>= f = abort e

abbrev pub ◌>>◌ {ℓ} : {B : Type ℓ} → Run (Unit {0}) → Run B → Run B
m >> k = m >>= λ _. k

-- `assert(b)`
abbrev pub assert : Bool → Assertion → Run (Unit {0})
assert true e = return tt
assert false e = abort e

abbrev pub returns {ℓ} : {A : Type ℓ} → Run A → Bool
returns (return a) = true
returns (abort e) = false

-- Inversion of a bind that returned.
pub >>=-eq-return {ℓ κ} :
    {A : Type ℓ} {B : Type κ} (m : Run A) (f : A → Run B) {b : B}
    → (m >>= f) ≡ return b
    → (a : A) × (m ≡ return a) × (f a ≡ return b)
>>=-eq-return (return a) f h = (a, refl, h)
>>=-eq-return (abort e) f h = cc

pub returns-cases {ℓ} : {A : Type ℓ} (m : Run A) → returns m ≡ true → (a : A) × (m ≡ return a)
returns-cases (return a) h = (a, refl)
returns-cases (abort e) h = cc

pub return_inj {ℓ} : {A : Type ℓ} {a b : A} → return a ≡ return b → a ≡ b
return_inj e = cc
