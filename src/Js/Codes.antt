-- ===== src/Js/Codes.antt =====
-- `exports.codes` of lib/vcdiff.js, and the error that `onerror` makes.
use node_vcdiff.Base.{
  ℕ, String, Option, none, some, is_some, List, [], ◌∷◌, ◌++◌, ◌==◌, ◌≡◌, arith, if◌then◌else◌,
}
use node_vcdiff.Codec.{init_error, encode_error, decode_error, error_code}
use text.Mathlib.Text.{◌==◌ as str_eq}

-- A property of the object, by a name or by a number, and its value.
pub data Property : Type 0 where
  code_of : String → ℕ → Property
  name_of : ℕ → String → Property

named_codes : List (String × ℕ)
named_codes =
    ("VCD_INIT_ERROR", error_code init_error)
    ∷ ("VCD_ENCODE_ERROR", error_code encode_error)
    ∷ ("VCD_DECODE_ERROR", error_code decode_error)
    ∷ []

to_properties : List (String × ℕ) → List Property
to_properties [] = []
to_properties ((name, code) ∷ rest) = code_of name code ∷ to_properties rest

-- The `forEach`: each name becomes the value of its code.
reversed : List (String × ℕ) → List Property
reversed [] = []
reversed ((name, code) ∷ rest) = name_of code name ∷ reversed rest

unfoldable pub codes : List Property
unfolding named_codes to_properties reversed error_code
codes = to_properties named_codes ++ reversed named_codes

-- `exports.codes[errno]` and `exports.codes[name]`
unfoldable pub lookup_name : ℕ → List Property → Option String
lookup_name errno [] = none
lookup_name errno (name_of code name ∷ rest) =
    if code == errno then some name else lookup_name errno rest
lookup_name errno (code_of name code ∷ rest) = lookup_name errno rest

unfoldable pub lookup_code : String → List Property → Option ℕ
lookup_code wanted [] = none
lookup_code wanted (code_of name code ∷ rest) =
    if str_eq name wanted then some code else lookup_code wanted rest
lookup_code wanted (name_of code name ∷ rest) = lookup_code wanted rest

-- The properties that `onerror(message, errno)` gives its `Error`.
pub record ErrorObject : Type 0 where
  pub message : String
  pub errno : ℕ
  pub code : Option String

unfoldable pub make_error : String → ℕ → ErrorObject
unfolding codes lookup_name
make_error message errno = record {
  message = message;
  errno = errno;
  code = lookup_name errno codes;
}

-- The names of the errors by their numbers in `VcdCtx::Error`: OK is 0.
abbrev pub name_of_errno : ℕ → Option String
name_of_errno errno =
    if errno == 1
    then some "VCD_INIT_ERROR"
    else if errno == 2
    then some "VCD_ENCODE_ERROR"
    else if errno == 3
    then some "VCD_DECODE_ERROR"
    else none

-- `exports.codes[code]` where there is a code.
abbrev pub lookup_optional : Option String → Option ℕ
lookup_optional none = none
lookup_optional (some name) = lookup_code name codes

-- Whatever number and message `onerror` is given, the error object has the code VCD_INIT_ERROR for 1,
-- VCD_ENCODE_ERROR for 2, VCD_DECODE_ERROR for 3 and none for any other number, and `exports.codes`
-- leads from the code back to the number.
pub make_error-codes :
    (message : String) (errno : ℕ)
    → ((make_error message errno).code ≡ name_of_errno errno)
      × (lookup_optional (make_error message errno).code
          ≡ (if is_some (name_of_errno errno) then some errno else none))
unfolding make_error lookup_name lookup_code codes error_code
make_error-codes message errno = ground arith
