-- ===== src/Codec/Decoder.antt =====
-- `VcdDecoder` (src/vcd_decoder.h, src/vcd_decoder.cc).
use node_vcdiff.Base.{Bytes, if◌then◌else◌}
use node_vcdiff.Codec.{Error, ok, decode_error}
use node_vcdiff.Codec.OpenVcdiff.{OpenVcdiff}

module _ (V : OpenVcdiff) where
  -- The decoder, and the dictionary: a pointer into a `Buffer` that is held against garbage
  -- collection. Nobody writes to that buffer while the decoder lives.
  pub record VcdDecoder : Type 0 where
    pub decoder : V.Decoder
    pub dictionary_buffer : Bytes

  -- `VcdDecoder::VcdDecoder`
  abbrev pub make_vcd_decoder : Bytes → V.Decoder → VcdDecoder
  make_vcd_decoder dictionary decoder = record { decoder = decoder; dictionary_buffer = dictionary }

  unfoldable pub start : VcdDecoder → Bytes → Error × Bytes × VcdDecoder
  start d out = (ok, out, record d { decoder = V.start_decoding d.decoder d.dictionary_buffer })

  unfoldable pub process : VcdDecoder → Bytes → Bytes → Error × Bytes × VcdDecoder
  process d chunk out =
      let (decoded, out', decoder') = V.decode_chunk d.decoder chunk out in
      (if decoded then ok else decode_error, out', record d { decoder = decoder' })

  unfoldable pub finish : VcdDecoder → Bytes → Error × Bytes × VcdDecoder
  finish d out =
      let (finished, decoder') = V.finish_decoding d.decoder in
      (if finished then ok else decode_error, out, record d { decoder = decoder' })
