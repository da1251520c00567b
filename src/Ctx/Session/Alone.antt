-- ===== src/Ctx/Session/Alone.antt =====
-- The coders of the binding, called directly, against open-vcdiff on its own.
use node_vcdiff.Base.{some, is_some, true, none, List, [], ◌∷◌, Option, Bytes, ◌≡◌, refl, arith}
use node_vcdiff.Codec.{ok}
use node_vcdiff.Codec.OpenVcdiff.{OpenVcdiff}
use node_vcdiff.Codec.Alone.{encode_chunks, encode_alone, decode_chunks, decode_alone}
use node_vcdiff.Codec.Encoder
use node_vcdiff.Codec.Decoder
use node_vcdiff.Codec.Dispatch
use node_vcdiff.Codec.Dispatch.{any_coder, encoder, decoder}
use node_vcdiff.Ctx.Session.{direct, direct_chunks}

module _ (V : OpenVcdiff) where
  direct_chunks-encoder :
      (e : V.Encoder) (d : V.HashedDictionary) (windows : List Bytes) (out delta : Bytes)
      → encode_chunks V e windows out ≡ some delta
      → direct_chunks
          (any_coder V)
          (encoder (record { encoder = e; hashed_dictionary = d }))
          windows
          out
        ≡ (ok, delta)
  unfolding encode_chunks direct_chunks Dispatch.process Dispatch.finish Encoder.process
      Encoder.finish
  direct_chunks-encoder e d [] out delta h = ground arith
  direct_chunks-encoder e d (window ∷ rest) out delta h =
      let (encoded, out', e') = V.encode_chunk e window out in
      ground (arith, direct_chunks-encoder e' d rest out' delta)

  -- Where no call of the encoder fails, the binding makes the same delta.
  pub direct-encoder :
      (e : V.Encoder) (d : V.HashedDictionary) (windows : List Bytes) (delta : Bytes)
      → encode_alone V e windows ≡ some delta
      → direct (any_coder V) (encoder (record { encoder = e; hashed_dictionary = d })) windows
        ≡ (ok, delta)
  unfolding encode_alone direct Dispatch.start Encoder.start
  direct-encoder e d windows delta h =
      let (started, out, e') = V.start_encoding e [] in
      ground (arith, direct_chunks-encoder e' d windows out delta)

  direct_chunks-decoder :
      (d : V.Decoder) (dictionary : Bytes) (pieces : List Bytes) (out target : Bytes)
      → decode_chunks V d pieces out ≡ some target
      → direct_chunks
          (any_coder V)
          (decoder (record { decoder = d; dictionary_buffer = dictionary }))
          pieces
          out
        ≡ (ok, target)
  unfolding decode_chunks direct_chunks Dispatch.process Dispatch.finish Decoder.process
      Decoder.finish
  direct_chunks-decoder d dictionary [] out target h = ground arith
  direct_chunks-decoder d dictionary (piece ∷ rest) out target h =
      let (decoded, out', d') = V.decode_chunk d piece out in
      ground (arith, direct_chunks-decoder d' dictionary rest out' target)

  -- Where no call of the decoder fails, the binding makes the same data.
  pub direct-decoder :
      (d : V.Decoder) (dictionary : Bytes) (pieces : List Bytes) (target : Bytes)
      → decode_alone V d dictionary pieces ≡ some target
      → direct
          (any_coder V)
          (decoder (record { decoder = d; dictionary_buffer = dictionary }))
          pieces
        ≡ (ok, target)
  unfolding decode_alone direct Dispatch.start Decoder.start
  direct-decoder d dictionary pieces target h =
      direct_chunks-decoder (V.start_decoding d dictionary) dictionary pieces [] target h

  pub made_alone :
      (made : Option Bytes) → is_some made ≡ true → (delta : Bytes) × (made ≡ some delta)
  made_alone (some delta) h = (delta, refl)
  made_alone none h = cc
