-- ===== src/Js/Options/Limits.antt =====
-- The limits of a decoder.
use node_vcdiff.Base.{zero, suc, true, not, some, Bytes, ◌≡◌, refl, arith}
use node_vcdiff.Codec.{decode, mode_code}
use node_vcdiff.Codec.OpenVcdiff.{OpenVcdiff}
use node_vcdiff.Codec.Dispatch.{AnyCoder, decoder}
use node_vcdiff.Ctx.Defs.{make_ctx}
use node_vcdiff.Binding.{buffer, new_ctx}
use node_vcdiff.Js.Number.{Number, int, infinity, minus_infinity, nan, pos, negsuc, truthy}
use node_vcdiff.Js.Outcome.{Exception, returned, threw, invalid_max_target_file_size}
use node_vcdiff.Js.Options.{
  Options, Vcdiff, check_range, max_max_target_size, min_max_target_size, default_max_target_size,
  make_vcdiff, is_false,
}

-- Every option that counts as given fails the range check, since the upper limit is negative.
check_target_size :
    (n : Number) (e : Number → Exception)
    → truthy n ≡ true
    → check_range (some n) min_max_target_size max_max_target_size e ≡ threw (e n)
unfolding check_range min_max_target_size max_max_target_size
check_target_size (int (pos zero)) e h = cc
check_target_size (int (pos (suc n))) e h = ground arith
check_target_size (int (negsuc n)) e h = ground arith
check_target_size infinity e h = refl
check_target_size minus_infinity e h = refl
check_target_size nan e h = cc

module _ (V : OpenVcdiff) where
  -- The bug: a decoder with any `maxTargetFileSize` but 0 and NaN cannot be made. The limit
  -- `1 << 32 - 1` is -2147483648, and the constructor throws for every other value.
  pub max_target_file_size_throws :
      (opts : Options V) (bytes : Bytes) (n : Number)
      → opts.dictionary ≡ some (buffer bytes)
      → opts.max_target_file_size ≡ some n
      → truthy n ≡ true
      → make_vcdiff V opts (mode_code decode) ≡ threw (invalid_max_target_file_size n)
  unfolding make_vcdiff mode_code
  max_target_file_size_throws opts bytes n d given t =
      ground (arith, check_target_size n invalid_max_target_file_size t)

  -- The decoder with the default limits, the dictionary of the options, and `allowVcdTarget` set
  -- unless it was given as false.
  abbrev pub decoder_of : Options V → Bytes → AnyCoder V
  decoder_of opts bytes = decoder (record {
    decoder =
        (V.set_maximum_target_window_size
          (V.set_maximum_target_file_size
            (V.set_allow_vcd_target V.make_decoder (not (is_false opts.allow_vcd_target)))
            default_max_target_size).1
          default_max_target_size).1;
    dictionary_buffer = bytes;
  })

  -- So every decoder that is made has the default limits, whatever the options say, the dictionary
  -- of the options, and `allowVcdTarget` set unless it was given as false.
  pub decoder_settings :
      (opts : Options V) (bytes : Bytes) (s : Vcdiff V)
      → opts.dictionary ≡ some (buffer bytes)
      → make_vcdiff V opts (mode_code decode) ≡ returned s
      → s.ctx ≡ make_ctx (decoder_of opts bytes)
  unfolding make_vcdiff new_ctx mode_code
  decoder_settings opts bytes s d e = ground arith
