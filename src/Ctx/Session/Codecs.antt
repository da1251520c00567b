-- ===== src/Ctx/Session/Codecs.antt =====
-- Sessions with the two coders of the binding.
use node_vcdiff.Base.{[], ◌++◌, Bytes, append-nil, ◌≡◌}
use node_vcdiff.Codec.OpenVcdiff.{OpenVcdiff}
use node_vcdiff.Codec.Encoder
use node_vcdiff.Codec.Decoder
use node_vcdiff.Codec.Dispatch
use node_vcdiff.Codec.Dispatch.{AnyCoder, encoder, decoder, any_coder}
use node_vcdiff.Ctx.Session.{IsAppending}

module _ (V : OpenVcdiff) where
  -- What google/vcencoder.h and google/vcdecoder.h say of a method with an output string: it appends
  -- to the string, and its output does not depend on what is there.
  pub record AppendsOutput : Type 0 where
    pub start_encoding :
        (e : V.Encoder) (out : Bytes)
        → let (b, o, e') = V.start_encoding e [] in V.start_encoding e out ≡ (b, out ++ o, e')
    pub encode_chunk :
        (e : V.Encoder) (chunk out : Bytes)
        → let (b, o, e') = V.encode_chunk e chunk [] in
          V.encode_chunk e chunk out ≡ (b, out ++ o, e')
    pub finish_encoding :
        (e : V.Encoder) (out : Bytes)
        → let (b, o, e') = V.finish_encoding e [] in V.finish_encoding e out ≡ (b, out ++ o, e')
    pub decode_chunk :
        (d : V.Decoder) (chunk out : Bytes)
        → let (b, o, d') = V.decode_chunk d chunk [] in
          V.decode_chunk d chunk out ≡ (b, out ++ o, d')

  module _ (h : AppendsOutput) where
    start_appends :
        (s : AnyCoder V) (out : Bytes)
        → let (e, o, s') = Dispatch.start V s [] in Dispatch.start V s out ≡ (e, out ++ o, s')
    unfolding Dispatch.start Encoder.start Decoder.start
    start_appends (encoder e) out = rw (h.start_encoding e.encoder out)
    start_appends (decoder d) out = rw append-nil

    process_appends :
        (s : AnyCoder V) (chunk out : Bytes)
        → let (e, o, s') = Dispatch.process V s chunk [] in
          Dispatch.process V s chunk out ≡ (e, out ++ o, s')
    unfolding Dispatch.process Encoder.process Decoder.process
    process_appends (encoder e) chunk out = rw (h.encode_chunk e.encoder chunk out)
    process_appends (decoder d) chunk out = rw (h.decode_chunk d.decoder chunk out)

    finish_appends :
        (s : AnyCoder V) (out : Bytes)
        → let (e, o, s') = Dispatch.finish V s [] in Dispatch.finish V s out ≡ (e, out ++ o, s')
    unfolding Dispatch.finish Encoder.finish Decoder.finish
    finish_appends (encoder e) out = rw (h.finish_encoding e.encoder out)
    finish_appends (decoder d) out = rw append-nil

    -- If the methods of open-vcdiff append to the output string, so do both coders of the binding,
    -- whichever virtual method is called and whether or not it fails.
    pub any_coder-IsAppending : IsAppending (any_coder V)
    any_coder-IsAppending = record {
      start_appends = start_appends;
      process_appends = process_appends;
      finish_appends = finish_appends;
    }
