-- ===== src/Js/Options.antt =====
-- The constructors of lib/vcdiff.js: `Vcdiff(opts, mode)` with the constants that it checks against, and
-- the two that call it.
pub mod Limits
pub mod Encoding
use Prim.Native.Nat.{bit_or}
use node_vcdiff.Base.{
  ℕ, ◌-◌, Bool, true, false, not, ◌||◌, Option, none, some, List, [], Bytes, ◌==◌, if◌then◌else◌,
}
use node_vcdiff.Codec.{encode, decode, mode_code}
use node_vcdiff.Codec.OpenVcdiff.{OpenVcdiff}
use node_vcdiff.Codec.Dispatch.{AnyCoder}
use node_vcdiff.Ctx.Defs.{Ctx}
use node_vcdiff.Binding.{Object, buffer, new_ctx}
use node_vcdiff.Js.Number.{Number, int, infinity, pos, lt, truthy, shift_left}
use node_vcdiff.Js.Outcome.{
  Exception, Outcome, returned, threw, native_call, throw_if, ◌>>=◌, ◌>>◌,
  must_provide_hashed_dictionary, invalid_encode_window_size, invalid_dictionary,
  invalid_max_target_file_size, invalid_max_target_window_size, invalid_mode,
}

-- `1 << 32 - 1`, where `-` binds tighter than `<<`
unfoldable pub max_max_target_size : Number
unfolding shift_left
max_max_target_size = int (shift_left 1 (32 - 1))

unfoldable pub min_max_target_size : Number
min_max_target_size = int (pos 1)

-- `1 << 26`
unfoldable pub default_max_target_size : ℕ
default_max_target_size = 67108864

unfoldable pub min_min_encode_window_size : Number
min_min_encode_window_size = int (pos 64)

unfoldable pub max_min_encode_window_size : Number
max_min_encode_window_size = infinity

unfoldable pub default_min_encode_window_size : Number
default_min_encode_window_size = int (pos 4096)

-- `opts.x === true` and `opts.x === false` of an option that may be missing.
abbrev pub is_true : Option Bool → Bool
is_true (some true) = true
is_true _ = false

abbrev pub is_false : Option Bool → Bool
is_false (some false) = true
is_false _ = false

-- `opts.x || y`
abbrev pub or_default : Option Number → Number → Number
or_default none y = y
or_default (some x) y = if truthy x then x else y

-- `if (opts.x) { if (opts.x < low || opts.x > high) throw ... }`
unfoldable pub check_range :
    Option Number → Number → Number → (Number → Exception) → Outcome (Unit {0})
check_range none low high e = returned tt
check_range (some x) low high e =
    if truthy x then throw_if (lt x low || lt high x) (e x) else returned tt

module _ (V : OpenVcdiff) where
  -- The options that the constructor reads, each missing where it is `undefined`. They have the
  -- types that README.md gives them.
  pub record Options : Type 0 where
    pub min_encode_window_size : Option Number
    pub hashed_dictionary : Option (Object V)
    pub interleaved : Option Bool
    pub checksum : Option Bool
    pub json : Option Bool
    pub target_matches : Option Bool
    pub encode_window_size : Option Number
    pub dictionary : Option (Object V)
    pub allow_vcd_target : Option Bool
    pub max_target_file_size : Option Number
    pub max_target_window_size : Option Number

  -- The fields of a `Vcdiff` stream. `attached` says that `_handle` is not null, and `ctx` is the
  -- native object that it refers to.
  pub record Vcdiff : Type 0 where
    pub min_encode_window_size : Number
    pub attached : Bool
    pub ctx : Ctx (AnyCoder V)
    pub mode : ℕ
    pub had_error : Bool
    pub closed : Bool
    pub force_flush : Bool
    pub nread : ℕ
    pub buffers : List Bytes

  -- `if (...) flags |= flag;`
  abbrev or_flag : Bool → ℕ → ℕ → ℕ
  or_flag true flag flags = bit_or flags flag
  or_flag false flag flags = flags

  unfoldable pub format_flags : Options → ℕ
  format_flags opts = or_flag (is_true opts.json) V.vcd_format_json (
      or_flag (is_true opts.checksum) V.vcd_format_checksum
        (or_flag (is_true opts.interleaved) V.vcd_format_interleaved V.vcd_standard_format))

  -- `opts.hashedDictionary instanceof Object`
  abbrev get_object : Option (Object V) → Outcome (Object V)
  get_object none = threw must_provide_hashed_dictionary
  get_object (some object) = returned object

  -- `Buffer.isBuffer(opts.dictionary)`
  abbrev get_dictionary : Option (Object V) → Outcome (Object V)
  get_dictionary (some (buffer bytes)) = returned (buffer bytes)
  get_dictionary _ = threw invalid_dictionary

  unfoldable pub make_encode_handle : Options → ℕ → Outcome (Ctx (AnyCoder V))
  unfolding format_flags check_range min_min_encode_window_size max_min_encode_window_size
  make_encode_handle opts mode = do
    dictionary ← get_object opts.hashed_dictionary
    check_range opts.encode_window_size min_min_encode_window_size max_min_encode_window_size
        invalid_encode_window_size
    native_call (
        new_ctx V (record {
          mode = mode;
          dictionary = dictionary;
          flag = is_true opts.target_matches;
          number = format_flags opts;
          other_number = 0;
        }))

  unfoldable pub make_decode_handle : Options → ℕ → Outcome (Ctx (AnyCoder V))
  unfolding check_range min_max_target_size max_max_target_size default_max_target_size
  make_decode_handle opts mode = do
    dictionary ← get_dictionary opts.dictionary
    check_range opts.max_target_file_size min_max_target_size max_max_target_size
        invalid_max_target_file_size
    check_range opts.max_target_window_size min_max_target_size max_max_target_size
        invalid_max_target_window_size
    native_call (
        new_ctx V (record {
          mode = mode;
          dictionary = dictionary;
          flag = not (is_false opts.allow_vcd_target);
          number = default_max_target_size;
          other_number = default_max_target_size;
        }))

  make_handle : Options → ℕ → Outcome (Ctx (AnyCoder V))
  unfolding make_encode_handle make_decode_handle mode_code
  make_handle opts mode =
      if mode == mode_code encode
      then make_encode_handle opts mode
      else if mode == mode_code decode
      then make_decode_handle opts mode
      else threw invalid_mode

  -- `Vcdiff(opts, mode)`
  unfoldable pub make_vcdiff : Options → ℕ → Outcome Vcdiff
  unfolding make_handle default_min_encode_window_size
  make_vcdiff opts mode = do
    ctx ← make_handle opts mode
    returned (record {
      min_encode_window_size =
          or_default opts.min_encode_window_size default_min_encode_window_size;
      attached = true;
      ctx = ctx;
      mode = mode;
      had_error = false;
      closed = false;
      force_flush = false;
      nread = 0;
      buffers = [];
    })

  -- `VcdiffEncoder(opts)` and `VcdiffDecoder(opts)`. Called without `new`, each calls itself with it.
  abbrev pub vcdiff_encoder : Bool → Options → Outcome Vcdiff
  vcdiff_encoder true opts = make_vcdiff opts (mode_code encode)
  vcdiff_encoder false opts = make_vcdiff opts (mode_code encode)

  abbrev pub vcdiff_decoder : Bool → Options → Outcome Vcdiff
  vcdiff_decoder true opts = make_vcdiff opts (mode_code decode)
  vcdiff_decoder false opts = make_vcdiff opts (mode_code decode)

  -- `exports.createVcdiffEncoder` and `exports.createVcdiffDecoder`
  abbrev create_vcdiff_encoder : Options → Outcome Vcdiff
  create_vcdiff_encoder opts = vcdiff_encoder true opts

  abbrev create_vcdiff_decoder : Options → Outcome Vcdiff
  create_vcdiff_decoder opts = vcdiff_decoder true opts
