-- ===== src/Codec.antt =====
-- `VcdCtx::Coder` (src/vcdiff.h), the interface between the context and the two codecs, with the
-- enumerations that cross it.
pub mod OpenVcdiff
pub mod Alone
pub mod Encoder
pub mod Decoder
pub mod Dispatch
pub mod Log
pub mod Recorded
use node_vcdiff.Base.{ℕ, String, Bool, true, false, Bytes}

-- `VcdCtx::Mode`
pub data Mode : Type 0 where
  encode decode : Mode

-- `VcdCtx::Error`
pub data Error : Type 0 where
  ok init_error encode_error decode_error : Error

pub Error-discrete : Discrete Error
Error-discrete = hlevel

-- `static_cast<int>(err)`: the position of the enumerator.
unfoldable pub error_code : Error → ℕ
error_code ok = 0
error_code init_error = 1
error_code encode_error = 2
error_code decode_error = 3

unfoldable pub mode_code : Mode → ℕ
mode_code encode = 0
mode_code decode = 1

-- `err == Error::OK`
abbrev pub is_ok : Error → Bool
is_ok ok = true
is_ok _ = false

-- `VcdCtx::GetErrorString`
unfoldable pub get_error_string : Error → String
get_error_string init_error = "Vcdiff initialization error"
get_error_string encode_error = "Vcdiff encode error"
get_error_string decode_error = "Vcdiff decode error"
get_error_string ok = "Vcdiff unknown error"

-- `VcdCtx::Coder`. A method is given the object and the output string as they are, and returns its
-- error code, the output string and the object as it leaves them.
pub record Coder : Type 1 where
  pub State : Type 0
  pub start : State → Bytes → Error × Bytes × State
  pub process : State → Bytes → Bytes → Error × Bytes × State
  pub finish : State → Bytes → Error × Bytes × State
