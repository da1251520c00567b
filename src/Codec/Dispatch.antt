-- ===== src/Codec/Dispatch.antt =====
-- The object behind `std::unique_ptr<Coder>`: one of the two classes, its virtual methods chosen
-- by the class.
use node_vcdiff.Base.{Bytes}
use node_vcdiff.Codec.{Error, Coder}
use node_vcdiff.Codec.OpenVcdiff.{OpenVcdiff}
use node_vcdiff.Codec.Encoder
use node_vcdiff.Codec.Encoder.{VcdEncoder}
use node_vcdiff.Codec.Decoder
use node_vcdiff.Codec.Decoder.{VcdDecoder}

module _ (V : OpenVcdiff) where
  pub data AnyCoder : Type 0 where
    encoder : VcdEncoder V → AnyCoder
    decoder : VcdDecoder V → AnyCoder

  abbrev as_encoder : Error × Bytes × VcdEncoder V → Error × Bytes × AnyCoder
  as_encoder (e, out, s) = (e, out, encoder s)

  abbrev as_decoder : Error × Bytes × VcdDecoder V → Error × Bytes × AnyCoder
  as_decoder (e, out, s) = (e, out, decoder s)

  unfoldable pub start : AnyCoder → Bytes → Error × Bytes × AnyCoder
  start (encoder e) out = as_encoder (Encoder.start V e out)
  start (decoder d) out = as_decoder (Decoder.start V d out)

  unfoldable pub process : AnyCoder → Bytes → Bytes → Error × Bytes × AnyCoder
  process (encoder e) chunk out = as_encoder (Encoder.process V e chunk out)
  process (decoder d) chunk out = as_decoder (Decoder.process V d chunk out)

  unfoldable pub finish : AnyCoder → Bytes → Error × Bytes × AnyCoder
  finish (encoder e) out = as_encoder (Encoder.finish V e out)
  finish (decoder d) out = as_decoder (Decoder.finish V d out)

  abbrev pub any_coder : Coder
  any_coder = record { State = AnyCoder; start = start; process = process; finish = finish }
