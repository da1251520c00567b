-- ===== src/Tests/Dictionaries.antt =====
-- A dictionary object, made and handed to a context.
use node_vcdiff.Base.{true, Bytes, ◌≡◌, refl}
use node_vcdiff.Base.Run.{return}
use node_vcdiff.Codec.{mode_code}
use node_vcdiff.Codec.Dispatch.{encoder}
use node_vcdiff.Ctx.Defs.{make_ctx}
use node_vcdiff.Binding.{NewArgs, hashed_dictionary, new_ctx, new_hashed_dictionary}
use node_vcdiff.Binding.Dictionaries.{dictionary_serves}
use node_vcdiff.Tests.Toy.{toy, dictionary}

abbrev encoder_args : NewArgs toy
encoder_args = record {
  mode = 0;
  dictionary = hashed_dictionary dictionary;
  flag = true;
  number = 3;
  other_number = 0;
}

dictionary_serves_example :
    (d : Bytes) × (toy.init (toy.make_dictionary dictionary) ≡ (true, d))
    × (new_ctx toy encoder_args
        ≡ return (
            make_ctx
              (encoder (record { encoder = toy.make_encoder d 3 true; hashed_dictionary = d }))))
unfolding new_hashed_dictionary mode_code
dictionary_serves_example =
    dictionary_serves toy dictionary (hashed_dictionary dictionary) encoder_args refl refl refl
