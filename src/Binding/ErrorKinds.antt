-- ===== src/Binding/ErrorKinds.antt =====
-- Which errors a context can report, by the class of its coder.
use node_vcdiff.Base.{
  Bool, true, false, Option, none, some, [], Bytes, ◌≡◌, ◌≢◌, refl, ◌⊎◌, inl, arith,
}
use node_vcdiff.Base.Run.{Run, return}
use node_vcdiff.Codec.{Error, ok, decode_error}
use node_vcdiff.Codec.OpenVcdiff.{OpenVcdiff}
use node_vcdiff.Codec.Encoder
use node_vcdiff.Codec.Encoder.{VcdEncoder}
use node_vcdiff.Codec.Decoder
use node_vcdiff.Codec.Decoder.{VcdDecoder}
use node_vcdiff.Codec.Dispatch
use node_vcdiff.Codec.Dispatch.{AnyCoder, encoder, decoder, any_coder}
use node_vcdiff.Ctx.Defs.{Ctx, State, idle, done, is_done, is_finalizing}
use node_vcdiff.Ctx.Process.{process}
use node_vcdiff.Ctx.Write.{result, write, write_now, check_error, finish_write}
use node_vcdiff.Ctx.Write.Cases.{CanWrite}
use node_vcdiff.Ctx.Invariant.{Inv}
use node_vcdiff.Ctx.System.{Reach}
use node_vcdiff.Ctx.Frame.{Reach-Holds}

module _ (V : OpenVcdiff) where
  -- The context has a decoder, or had one, and its error code is one that a decoder gives.
  abbrev DecodeErrors : Option (AnyCoder V) → Error → Type 0
  DecodeErrors none err = (err ≡ ok) ⊎ (err ≡ decode_error)
  DecodeErrors (some (decoder d)) err = (err ≡ ok) ⊎ (err ≡ decode_error)
  DecodeErrors (some (encoder e)) err = ⊥

  process-DecodeErrors :
      (chunk : Bytes) (is_last : Bool) (c c' : Ctx (AnyCoder V))
      → is_finalizing c.state ≡ false
      → DecodeErrors c.coder c.err
      → process (any_coder V) chunk is_last c ≡ return c'
      → DecodeErrors c'.coder c'.err
  unfolding process Dispatch.start Dispatch.process Dispatch.finish Decoder.start Decoder.process
      Decoder.finish
  process-DecodeErrors chunk is_last c c' settled h e = ground arith

  -- A decoding context never has another error than "Vcdiff decode error", whatever happens to it.
  decoder_errors :
      (d : VcdDecoder V) (c : Ctx (AnyCoder V))
      → Reach (any_coder V) (decoder d) c
      → (c.err ≡ ok) ⊎ (c.err ≡ decode_error)
  decoder_errors d c r = DecodeErrors-err c.coder c.err (
      Reach-Holds (any_coder V) (λ coder state err. DecodeErrors coder err)
        (λ coder state err h. DecodeErrors-err coder err h) process-DecodeErrors (decoder d) c
        (inl refl) r)
    where
      DecodeErrors-err :
          (coder : Option (AnyCoder V)) (err : Error)
          → DecodeErrors coder err
          → (err ≡ ok) ⊎ (err ≡ decode_error)
      DecodeErrors-err none err h = h
      DecodeErrors-err (some (decoder d)) err h = h
      DecodeErrors-err (some (encoder e)) err h = absurd h

  -- The same of an encoder.
  abbrev EncodeErrors : Option (AnyCoder V) → Error → Type 0
  EncodeErrors none err = err ≢ decode_error
  EncodeErrors (some (encoder e)) err = err ≢ decode_error
  EncodeErrors (some (decoder d)) err = ⊥

  process-EncodeErrors :
      (chunk : Bytes) (is_last : Bool) (c c' : Ctx (AnyCoder V))
      → is_finalizing c.state ≡ false
      → EncodeErrors c.coder c.err
      → process (any_coder V) chunk is_last c ≡ return c'
      → EncodeErrors c'.coder c'.err
  unfolding process Dispatch.start Dispatch.process Dispatch.finish Encoder.start Encoder.process
      Encoder.finish
  process-EncodeErrors chunk is_last c c' settled h e = ground arith

  -- An encoding context never has a decode error.
  encoder_errors :
      (e : VcdEncoder V) (c : Ctx (AnyCoder V))
      → Reach (any_coder V) (encoder e) c
      → c.err ≢ decode_error
  encoder_errors e c r = EncodeErrors-err c.coder c.err (
      Reach-Holds (any_coder V) (λ coder state err. EncodeErrors coder err)
        (λ coder state err h. EncodeErrors-err coder err h) process-EncodeErrors (encoder e) c
        (λ h. cc) r)
    where
      EncodeErrors-err :
          (coder : Option (AnyCoder V)) (err : Error) → EncodeErrors coder err → err ≢ decode_error
      EncodeErrors-err none err h = h
      EncodeErrors-err (some (encoder e)) err h = h
      EncodeErrors-err (some (decoder d)) err h = absurd h

  -- The errors that the class of a coder can give.
  abbrev pub IsErrorOf : AnyCoder V → Error → Type 0
  IsErrorOf (decoder d) err = (err ≡ ok) ⊎ (err ≡ decode_error)
  IsErrorOf (encoder e) err = err ≢ decode_error

  -- Whatever happens to a context, its error is none or "Vcdiff decode error" if it was made with a
  -- decoder, and never "Vcdiff decode error" if it was made with an encoder.
  pub error_kinds :
      (coder : AnyCoder V) (c : Ctx (AnyCoder V))
      → Reach (any_coder V) coder c
      → IsErrorOf coder c.err
  error_kinds (decoder d) c r = decoder_errors d c r
  error_kinds (encoder e) c r = encoder_errors e c r

  -- `Start` of an encoder, if the context did not start it yet: whether it went well, the output and
  -- the encoder.
  abbrev pub begun : State → V.Encoder → Bytes → Bool × Bytes × V.Encoder
  begun idle e out = V.start_encoding e out
  begun _ e out = (true, out, e)

  -- `EncodeChunk` after that.
  abbrev pub encoded_last : State → V.Encoder → Bytes → Bytes → Bool × Bytes × V.Encoder
  encoded_last state e chunk out =
      let (_, out', e') = begun state e out in V.encode_chunk e' chunk out'

  -- The bug: an encoder that fails to finish goes unnoticed. A `writeSync` of the last chunk, the first
  -- one or a later one, that starts the encoder, where it is not started, and encodes the chunk without
  -- an error returns the output that `FinishEncodingToInterface` left, finished, enters no callback and
  -- leaves no error, whatever `FinishEncodingToInterface` returned.
  pub failed_finish_unnoticed :
      (js : Ctx (AnyCoder V) → Run (Ctx (AnyCoder V))) (e : VcdEncoder V) (c : Ctx (AnyCoder V))
      (chunk : Bytes)
      → Inv c
      → CanWrite (any_coder V) c
      → c.coder ≡ some (encoder e)
      → is_done c.state ≡ false
      → (begun c.state e.encoder c.output_buffer).0 ≡ true
      → (encoded_last c.state e.encoder chunk c.output_buffer).0 ≡ true
      → let (_, out, e') = encoded_last c.state e.encoder chunk c.output_buffer in
        (c' : Ctx (AnyCoder V)) × (write (any_coder V) js chunk true false c
          ≡ return (result (V.finish_encoding e' out).1 true, c'))
        × (c'.err ≡ ok)
        × (c'.events ≡ c.events)
  unfolding write write_now process check_error finish_write Dispatch.start Dispatch.process
      Dispatch.finish Encoder.start Encoder.process Encoder.finish
  failed_finish_unnoticed js e c chunk v (alive, free, open_still) is_encoder going started
        encoded =
      let e' = (encoded_last c.state e.encoder chunk c.output_buffer).2 in
      let out = (encoded_last c.state e.encoder chunk c.output_buffer).1 in
      (
        record c {
          coder = some (encoder (record e { encoder = (V.finish_encoding e' out).2 }));
          write_in_progress = false;
          in_buffer = none;
          output_buffer = [];
          state = done;
          err = ok;
        },
        ground (arith, v.settled, v.fresh),
        refl,
        refl,
      )
