-- ===== src/Codec/OpenVcdiff.antt =====
-- The open-vcdiff library, which the binding links (src/third-party/open-vcdiff): its classes and the
-- methods that the binding calls, as a parameter of the model.
use node_vcdiff.Base.{ℕ, Bool, Bytes}

-- A method takes the object and the output string, and returns what the C++ method returns, the
-- output string and the object afterwards.
pub record OpenVcdiff : Type 1 where
  pub HashedDictionary : Type 0
  pub Encoder : Type 0
  pub Decoder : Type 0
  -- `HashedDictionary(const char*, size_t)` and `Init`
  pub make_dictionary : Bytes → HashedDictionary
  pub init : HashedDictionary → Bool × HashedDictionary
  -- `VCDiffStreamingEncoder`
  pub make_encoder : HashedDictionary → ℕ → Bool → Encoder
  pub start_encoding : Encoder → Bytes → Bool × Bytes × Encoder
  pub encode_chunk : Encoder → Bytes → Bytes → Bool × Bytes × Encoder
  pub finish_encoding : Encoder → Bytes → Bool × Bytes × Encoder
  -- `VCDiffStreamingDecoder`
  pub make_decoder : Decoder
  pub set_allow_vcd_target : Decoder → Bool → Decoder
  pub set_maximum_target_file_size : Decoder → ℕ → Bool × Decoder
  pub set_maximum_target_window_size : Decoder → ℕ → Bool × Decoder
  pub start_decoding : Decoder → Bytes → Decoder
  pub decode_chunk : Decoder → Bytes → Bytes → Bool × Bytes × Decoder
  pub finish_decoding : Decoder → Bool × Decoder
  -- `VCDiffFormatExtensionFlagValues`
  pub vcd_standard_format : ℕ
  pub vcd_format_interleaved : ℕ
  pub vcd_format_checksum : ℕ
  pub vcd_format_json : ℕ
