-- ===== src/Js/Options/Encoding.antt =====
-- The settings of an encoder.
use node_vcdiff.Base.{ℕ, ◌+◌, ◌*◌, ◌≤◌, Bool, true, false, some, ◌≡◌, ap, ◌∙◌, arith}
use node_vcdiff.Codec.{encode, mode_code}
use node_vcdiff.Codec.OpenVcdiff.{OpenVcdiff}
use node_vcdiff.Codec.Dispatch.{AnyCoder, encoder}
use node_vcdiff.Ctx.Defs.{make_ctx}
use node_vcdiff.Binding.{Object, other_object, hashed_dictionary, new_ctx}
use node_vcdiff.Js.Number.{Number, truthy}
use node_vcdiff.Js.Outcome.{returned, ◌>>=◌}
use node_vcdiff.Js.Options.{Options, Vcdiff, make_vcdiff, make_encode_handle, is_true, format_flags}

abbrev pub bit : Bool → ℕ
bit true = 1
bit false = 0

pub bit-le : (b : Bool) → bit b ≤ 1
bit-le true = omega arith
bit-le false = omega arith

module _ (V : OpenVcdiff) where
  -- With the values of google/format_extension_flags.h each option sets its own bit of the flags.
  pub format_flags_bits :
      (opts : Options V)
      → V.vcd_standard_format ≡ 0
      → V.vcd_format_interleaved ≡ 1
      → V.vcd_format_checksum ≡ 2
      → V.vcd_format_json ≡ 4
      → format_flags V opts
        ≡ bit (is_true opts.interleaved)
          + 2 * bit (is_true opts.checksum)
          + 4 * bit (is_true opts.json)
  unfolding format_flags
  format_flags_bits opts s i c j = rw (s, i, c, j) (ground arith)

  -- The option that README.md documents, `minEncodeWindowSize`, is not checked: an encoder takes any
  -- value of it. The check is on an `encodeWindowSize` that nothing else reads.
  pub min_encode_window_size_unchecked :
      (opts : Options V) (n : Number)
      → truthy n ≡ true
      → make_vcdiff V (record opts { min_encode_window_size = some n }) (mode_code encode) ≡ (
          make_vcdiff V opts (mode_code encode) >>= λ s.
          returned (record s { min_encode_window_size = n }))
  unfolding make_vcdiff mode_code format_flags
  min_encode_window_size_unchecked opts n t = ground arith

  -- The encoder on a dictionary object, with the flags and `targetMatches` of the options.
  abbrev pub encoder_of : Options V → V.HashedDictionary → AnyCoder V
  encoder_of opts d = encoder (record {
    encoder = V.make_encoder d (format_flags V opts) (is_true opts.target_matches);
    hashed_dictionary = d;
  })

  pub make_vcdiff-encoder_of :
      (opts : Options V) (d : V.HashedDictionary) (s : Vcdiff V)
      → opts.hashed_dictionary ≡ some (hashed_dictionary d)
      → make_vcdiff V opts (mode_code encode) ≡ returned s
      → s.ctx ≡ make_ctx (encoder_of opts d)
  unfolding make_vcdiff make_encode_handle new_ctx mode_code
  make_vcdiff-encoder_of opts d s h e = ground arith

  -- An encoder that is made works on the dictionary object that was given. With the values of
  -- google/format_extension_flags.h its flags are the sum of 1 just if `interleaved` was given as true,
  -- 2 just if `checksum` was and 4 just if `json` was, and it looks for matches in the target just if
  -- `targetMatches` was.
  pub encoder_settings :
      (opts : Options V) (d : V.HashedDictionary) (s : Vcdiff V)
      → V.vcd_standard_format ≡ 0
      → V.vcd_format_interleaved ≡ 1
      → V.vcd_format_checksum ≡ 2
      → V.vcd_format_json ≡ 4
      → opts.hashed_dictionary ≡ some (hashed_dictionary d)
      → make_vcdiff V opts (mode_code encode) ≡ returned s
      → s.ctx
        ≡ make_ctx (
            encoder (record {
              encoder =
                  V.make_encoder d
                    (bit (is_true opts.interleaved)
                      + 2 * bit (is_true opts.checksum)
                      + 4 * bit (is_true opts.json))
                    (is_true opts.target_matches);
              hashed_dictionary = d;
            }))
  encoder_settings opts d s st i c j h e =
      make_vcdiff-encoder_of opts d s h e
      ∙ ap
          (λ flags. make_ctx (
            encoder (record {
              encoder = V.make_encoder d flags (is_true opts.target_matches);
              hashed_dictionary = d;
            })))
          (format_flags_bits opts st i c j)

  -- The objects behind which there is no native object.
  abbrev pub wraps_nothing : Object V → Bool
  wraps_nothing (hashed_dictionary d) = false
  wraps_nothing (Object.buffer bytes) = true
  wraps_nothing other_object = true
