-- ===== src/Js/Sync/RoundTrip.antt =====
-- `vcdiffDecodeSync` after `vcdiffEncodeSync`, on codecs that keep what open-vcdiff documents.
use node_vcdiff.Base.{
  ◌≤◌, Bool, true, false, not, none, some, List, [], ◌∷◌, Bytes, ◌≡◌, sym, ap, ◌∙◌, subst, arith,
  append-nil, length,
}
use node_vcdiff.Codec.{ok, encode, decode, mode_code}
use node_vcdiff.Codec.OpenVcdiff.{OpenVcdiff}
use node_vcdiff.Codec.Alone.{decode_alone, limited, Encodes, Decodes}
use node_vcdiff.Codec.Dispatch.{any_coder}
use node_vcdiff.Ctx.Session.{direct}
use node_vcdiff.Ctx.Session.Alone.{direct-encoder, direct-decoder, made_alone}
use node_vcdiff.Binding.{Object, hashed_dictionary, new_ctx}
use node_vcdiff.Js.Options.{
  Options, Vcdiff, make_vcdiff, is_false, is_true, format_flags, default_max_target_size,
}
use node_vcdiff.Js.Options.Encoding.{bit, bit-le, format_flags_bits}
use node_vcdiff.Js.Options.Limits.{decoder_of}
use node_vcdiff.Js.Outcome.{returned, returned_inj, is_returned, is_returned-cases, >>=-eq-returned}
use node_vcdiff.Js.Sync.{buffer, vcdiff_encode_sync, vcdiff_decode_sync}
use node_vcdiff.Js.Sync.Laws.{of_direct, encode_sync_lem, decode_sync_lem}

module _ (V : OpenVcdiff) where
  -- The values of google/format_extension_flags.h.
  pub record HasFormatFlags : Type 0 where
    pub standard : V.vcd_standard_format ≡ 0
    pub interleaved : V.vcd_format_interleaved ≡ 1
    pub checksum : V.vcd_format_checksum ≡ 2
    pub json : V.vcd_format_json ≡ 4

  pub flags_small :
      (opts : Options V) → HasFormatFlags → is_true opts.json ≡ false → format_flags V opts ≤ 3
  flags_small opts f j = omega (
    arith,
    format_flags_bits V opts f.standard f.interleaved f.checksum f.json,
    bit-le (is_true opts.interleaved),
    bit-le (is_true opts.checksum),
    ap bit j,
  )

  pub decoder_made :
      (opts : Options V) (dictionary : Bytes)
      → opts.dictionary ≡ some (Object.buffer dictionary)
      → opts.max_target_file_size ≡ none
      → opts.max_target_window_size ≡ none
      → is_returned (make_vcdiff V opts (mode_code decode)) ≡ true
  unfolding make_vcdiff new_ctx mode_code
  decoder_made opts dictionary b nf nw = ground arith

  encoder_made :
      (opts : Options V) (target : Bytes) {delta : Bytes}
      → vcdiff_encode_sync V (buffer target) opts ≡ returned delta
      → (s : Vcdiff V) × (make_vcdiff V opts (mode_code encode) ≡ returned s)
  unfolding vcdiff_encode_sync
  encoder_made opts target e =
      let (s, made, _) = >>=-eq-returned (make_vcdiff V opts (mode_code encode)) _ e in (s, made)

  -- The default limit fits 31 bits.
  pub default_fits : default_max_target_size ≤ 2147483647
  unfolding default_max_target_size
  default_fits = omega arith

  -- The decoder that is made uses the limit of 64 MB, and may use VCD_TARGET unless it is forbidden.
  pub decode_with :
      (opts : Options V) (dictionary target : Bytes) (pieces : List Bytes)
      → is_false opts.allow_vcd_target ≡ false
      → decode_alone V (limited V default_max_target_size) dictionary pieces ≡ some target
      → direct (any_coder V) (decoder_of V opts dictionary) pieces ≡ (ok, target)
  decode_with opts dictionary target pieces a alone = direct-decoder V _ dictionary pieces target (
      subst (λ x. decode_alone V (decoder_with x) dictionary pieces ≡ some target) (sym (ap not a))
        alone)
    where
      decoder_with : Bool → V.Decoder
      decoder_with allow =
          (V.set_maximum_target_window_size
            (V.set_maximum_target_file_size (V.set_allow_vcd_target V.make_decoder allow)
              default_max_target_size).1
            default_max_target_size).1

  -- What was encoded with a `HashedDictionary`, in any format but JSON, decodes to the same data with
  -- that dictionary's buffer, if no encoder of open-vcdiff on the dictionary fails on the data, and the
  -- decoder is given no limits and may use VCD_TARGET. The data must fit the default limit of 64 MB.
  pub decode-encode_sync :
      (enc_opts dec_opts : Options V) (dictionary target delta : Bytes) (d : V.HashedDictionary)
      → Encodes V d target
      → Decodes V
      → HasFormatFlags
      → V.init (V.make_dictionary dictionary) ≡ (true, d)
      → enc_opts.hashed_dictionary ≡ some (hashed_dictionary d)
      → is_true enc_opts.json ≡ false
      → dec_opts.dictionary ≡ some (Object.buffer dictionary)
      → is_false dec_opts.allow_vcd_target ≡ false
      → dec_opts.max_target_file_size ≡ none
      → dec_opts.max_target_window_size ≡ none
      → length target ≤ default_max_target_size
      → vcdiff_encode_sync V (buffer target) enc_opts ≡ returned delta
      → vcdiff_decode_sync V (buffer delta) dec_opts ≡ returned target
  decode-encode_sync enc_opts dec_opts dictionary target delta d never_fails codec flags init h j b
        a nf nw fits e =
      let (s, made) = encoder_made enc_opts target e in
      let (s', made') = is_returned-cases _ (decoder_made dec_opts dictionary b nf nw) in
      let small = flags_small enc_opts flags j in
      let matches = is_true enc_opts.target_matches in
      let one = append-nil target in
      let (delta', alone) =
        made_alone V _
          (never_fails.encodes (format_flags V enc_opts) matches (target ∷ []) small one) in
      let through = direct-encoder V _ d (target ∷ []) delta' alone in
      let same : delta' ≡ delta =
        returned_inj
          (sym (encode_sync_lem V enc_opts d target s h made ∙ ap of_direct through) ∙ e) in
      let decoded =
        codec.decodes dictionary delta (target ∷ []) (delta ∷ []) d (format_flags V enc_opts)
          default_max_target_size matches init small default_fits (rw one fits)
          (alone ∙ ap some same) (append-nil delta) in
      decode_sync_lem V dec_opts dictionary delta s' b made'
      ∙ ap of_direct (decode_with dec_opts dictionary target (delta ∷ []) a (decoded ∙ ap some one))
