-- ===== src/Binding.antt =====
-- What the addon exports (`VcdCtx::Init`, `VcdHashedDictionary::Init`): the constructors `Vcdiff` and
-- `HashedDictionary`, and the constants.
pub mod ErrorKinds
pub mod Exports
pub mod Dictionaries
use node_vcdiff.Base.{ℕ, String, Bool, true, false, List, [], ◌∷◌, Bytes, ◌==◌, if◌then◌else◌}
use node_vcdiff.Base.Run.{
  Run, return, abort, ◌>>=◌, ◌>>◌, invalid_operation_mode, buffer_required, not_a_wrapped_object,
  wrong_argument_count,
}
use node_vcdiff.Codec.{
  encode, decode, mode_code, error_code, init_error, encode_error, decode_error,
}
use node_vcdiff.Codec.OpenVcdiff.{OpenVcdiff}
use node_vcdiff.Codec.Encoder.{make_vcd_encoder}
use node_vcdiff.Codec.Decoder.{make_vcd_decoder}
use node_vcdiff.Codec.Dispatch.{AnyCoder, encoder, decoder}
use node_vcdiff.Ctx.Defs.{Ctx, make_ctx}

module _ (V : OpenVcdiff) where
  -- A JavaScript object that is given as a dictionary: the wrapper of a `VcdHashedDictionary`, a
  -- `Buffer`, or any other object, which wraps nothing.
  pub data Object : Type 0 where
    hashed_dictionary : V.HashedDictionary → Object
    buffer : Bytes → Object
    other_object : Object

  -- `Unwrap<VcdHashedDictionary>(...)->hashed_dictionary()`
  unwrap : Object → Run V.HashedDictionary
  unwrap (hashed_dictionary d) = return d
  unwrap _ = abort not_a_wrapped_object

  -- `node::Buffer::HasInstance`, and the buffer's bytes.
  get_buffer : Object → Run Bytes
  get_buffer (buffer bytes) = return bytes
  get_buffer _ = abort buffer_required

  -- The arguments of `new Vcdiff(...)` as V8 converts them: `args[0]->Int32Value()`,
  -- `args[1]->ToObject()`, `args[2]->BooleanValue()`, `args[3]->Uint32Value()` and
  -- `args[4]->Uint32Value()`.
  pub record NewArgs : Type 0 where
    pub mode : ℕ
    pub dictionary : Object
    pub flag : Bool
    pub number : ℕ
    pub other_number : ℕ

  -- The encoder's half of `VcdCtx::New`.
  new_encoder : NewArgs → Run (AnyCoder V)
  unfolding unwrap
  new_encoder args = do
    hashed_dict ← unwrap args.dictionary
    return (
        encoder (make_vcd_encoder V hashed_dict (V.make_encoder hashed_dict args.number args.flag)))

  -- The decoder's half. What the two setters of limits return is dropped.
  new_decoder : NewArgs → Run (AnyCoder V)
  unfolding get_buffer
  new_decoder args = do
    bytes ← get_buffer args.dictionary
    let d1 = V.set_allow_vcd_target V.make_decoder args.flag
    let d2 = (V.set_maximum_target_file_size d1 args.number).1
    let d3 = (V.set_maximum_target_window_size d2 args.other_number).1
    return (decoder (make_vcd_decoder V bytes d3))

  new_coder : NewArgs → Run (AnyCoder V)
  unfolding new_encoder new_decoder mode_code
  new_coder args =
      if args.mode == mode_code encode
      then new_encoder args
      else if args.mode == mode_code decode
      then new_decoder args
      else abort invalid_operation_mode

  -- `VcdCtx::New`
  unfoldable pub new_ctx : NewArgs → Run (Ctx (AnyCoder V))
  unfolding new_coder make_ctx
  new_ctx args = new_coder args >>= λ coder. return (make_ctx coder)

  -- What `new HashedDictionary(...)` ends in, if the process survives: the object, or the exception
  -- that `VcdHashedDictionary::New` throws.
  pub data Constructed : Type 0 where
    constructed : Object → Constructed
    exception : String → Constructed

  -- `VcdHashedDictionary::VcdHashedDictionary`, in the JavaScript object that wraps it.
  abbrev make_hashed_dictionary : V.HashedDictionary → Object
  make_hashed_dictionary d = hashed_dictionary d

  abbrev wrap_if_initialized : Bool × V.HashedDictionary → Constructed
  wrap_if_initialized (true, d) = constructed (make_hashed_dictionary d)
  wrap_if_initialized (false, d) = exception "Error initializing hashed dictionary"

  -- `VcdHashedDictionary::New`, given all of its arguments.
  unfoldable pub new_hashed_dictionary : List Object → Run Constructed
  unfolding get_buffer
  new_hashed_dictionary (object ∷ []) = do
    bytes ← get_buffer object
    return (wrap_if_initialized (V.init (V.make_dictionary bytes)))
  new_hashed_dictionary _ = abort wrong_argument_count

  -- The constants that `VcdCtx::Init` sets on `exports`.
  unfoldable pub exported_constants : List (String × ℕ)
  exported_constants =
      ("ENCODE", mode_code encode)
      ∷ ("DECODE", mode_code decode)
      ∷ ("INIT_ERROR", error_code init_error)
      ∷ ("ENCODE_ERROR", error_code encode_error)
      ∷ ("DECODE_ERROR", error_code decode_error)
      ∷ ("VCD_STANDARD_FORMAT", V.vcd_standard_format)
      ∷ ("VCD_FORMAT_INTERLEAVED", V.vcd_format_interleaved)
      ∷ ("VCD_FORMAT_CHECKSUM", V.vcd_format_checksum)
      ∷ ("VCD_FORMAT_JSON", V.vcd_format_json)
      ∷ []
