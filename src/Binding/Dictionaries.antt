-- ===== src/Binding/Dictionaries.antt =====
-- From `new HashedDictionary(...)` to the encoder that works with the object.
use node_vcdiff.Base.{true, [], ◌∷◌, Bytes, ◌≡◌, arith}
use node_vcdiff.Base.Run.{return}
use node_vcdiff.Codec.{encode, mode_code}
use node_vcdiff.Codec.OpenVcdiff.{OpenVcdiff}
use node_vcdiff.Codec.Dispatch.{encoder}
use node_vcdiff.Ctx.Defs.{make_ctx}
use node_vcdiff.Binding.{NewArgs, Object, buffer, constructed, new_ctx, new_hashed_dictionary}

module _ (V : OpenVcdiff) where
  -- Every object that `new HashedDictionary(buffer)` makes can be given to the constructor of
  -- contexts in the encoding mode. The encoder works on the dictionary as `Init` left it, with the
  -- flags and the `targetMatches` of the other arguments. Without a successful `Init` there is no
  -- object.
  pub dictionary_serves :
      (bytes : Bytes) (object : Object V) (args : NewArgs V)
      → new_hashed_dictionary V (buffer bytes ∷ []) ≡ return (constructed object)
      → args.dictionary ≡ object
      → args.mode ≡ mode_code encode
      → (d : V.HashedDictionary) × (V.init (V.make_dictionary bytes) ≡ (true, d))
        × (new_ctx V args
            ≡ return (
                make_ctx (
                  encoder (record {
                    encoder = V.make_encoder d args.number args.flag;
                    hashed_dictionary = d;
                  }))))
  unfolding new_hashed_dictionary new_ctx mode_code
  dictionary_serves bytes object args made given mode =
      ((V.init (V.make_dictionary bytes)).1, ground arith, ground arith)
