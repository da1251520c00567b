-- ===== src/Codec/Encoder.antt =====
-- `VcdEncoder` (src/vcd_encoder.h, src/vcd_encoder.cc).
use node_vcdiff.Base.{Bytes, if◌then◌else◌}
use node_vcdiff.Codec.{Error, ok, init_error, encode_error}
use node_vcdiff.Codec.OpenVcdiff.{OpenVcdiff}

module _ (V : OpenVcdiff) where
  -- The encoder, and the dictionary object that is held against garbage collection.
  pub record VcdEncoder : Type 0 where
    pub encoder : V.Encoder
    pub hashed_dictionary : V.HashedDictionary

  -- `VcdEncoder::VcdEncoder`
  abbrev pub make_vcd_encoder : V.HashedDictionary → V.Encoder → VcdEncoder
  make_vcd_encoder hashed_dictionary encoder = record {
    encoder = encoder;
    hashed_dictionary = hashed_dictionary;
  }

  unfoldable pub start : VcdEncoder → Bytes → Error × Bytes × VcdEncoder
  start e out =
      let (started, out', encoder') = V.start_encoding e.encoder out in
      (if started then ok else init_error, out', record e { encoder = encoder' })

  unfoldable pub process : VcdEncoder → Bytes → Bytes → Error × Bytes × VcdEncoder
  process e chunk out =
      let (encoded, out', encoder') = V.encode_chunk e.encoder chunk out in
      (if encoded then ok else encode_error, out', record e { encoder = encoder' })

  -- The result of `FinishEncodingToInterface` is dropped.
  unfoldable pub finish : VcdEncoder → Bytes → Error × Bytes × VcdEncoder
  finish e out =
      let (_, out', encoder') = V.finish_encoding e.encoder out in
      (ok, out', record e { encoder = encoder' })
