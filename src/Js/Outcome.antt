-- ===== src/Js/Outcome.antt =====
-- How a JavaScript function ends: it returns, it throws, or an assertion of the addon ends the
-- process.
use node_vcdiff.Base.{Bool, true, false, ◌≡◌, refl}
use node_vcdiff.Base.Run.{Assertion, Run, return, abort}
use node_vcdiff.Codec.{Error}
use node_vcdiff.Js.Number.{Number}

-- The exceptions of lib/vcdiff.js, with the values that their messages quote. `native` is the
-- error that `onerror` makes of an error code, and `null_handle` the TypeError of a method call
-- on a null `_handle`.
pub data Exception : Type 0 where
  must_provide_hashed_dictionary : Exception
  invalid_encode_window_size : Number → Exception
  invalid_dictionary : Exception
  invalid_max_target_file_size : Number → Exception
  invalid_max_target_window_size : Number → Exception
  invalid_mode : Exception
  not_a_string_or_buffer : Exception
  callback_not_a_function : Exception
  binding_closed : Exception
  sync_should_finish : Exception
  null_handle : Exception
  native : Error → Exception

pub data Outcome {ℓ} (A : Type ℓ) : Type ℓ where
  returned : A → Outcome A
  threw : Exception → Outcome A
  aborted : Assertion → Outcome A

infixl 5 ◌>>=◌ ◌>>◌
abbrev pub ◌>>=◌ {ℓ κ} : {A : Type ℓ} {B : Type κ} → Outcome A → (A → Outcome B) → Outcome B
returned a >>= f = f a
threw e >>= f = threw e
aborted e >>= f = aborted e

abbrev pub ◌>>◌ {ℓ} : {B : Type ℓ} → Outcome (Unit {0}) → Outcome B → Outcome B
m >> k = m >>= λ _. k

abbrev pub native_call {ℓ} : {A : Type ℓ} → Run A → Outcome A
native_call (return a) = returned a
native_call (abort e) = aborted e

-- `if (b) throw e;`
abbrev pub throw_if : Bool → Exception → Outcome (Unit {0})
throw_if true e = threw e
throw_if false e = returned tt

abbrev pub is_returned {ℓ} : {A : Type ℓ} → Outcome A → Bool
is_returned (returned a) = true
is_returned _ = false

pub is_returned-cases {ℓ} :
    {A : Type ℓ} (m : Outcome A) → is_returned m ≡ true → (a : A) × (m ≡ returned a)
is_returned-cases (returned a) h = (a, refl)
is_returned-cases (threw e) h = cc
is_returned-cases (aborted e) h = cc

-- Inversion of a bind that returned.
pub >>=-eq-returned {ℓ κ} :
    {A : Type ℓ} {B : Type κ} (m : Outcome A) (f : A → Outcome B) {b : B}
    → (m >>= f) ≡ returned b
    → (a : A) × (m ≡ returned a) × (f a ≡ returned b)
>>=-eq-returned (returned a) f h = (a, refl, h)
>>=-eq-returned (threw e) f h = cc
>>=-eq-returned (aborted e) f h = cc

pub returned_inj {ℓ} : {A : Type ℓ} {a b : A} → returned a ≡ returned b → a ≡ b
returned_inj e = cc
