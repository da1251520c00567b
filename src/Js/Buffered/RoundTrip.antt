-- ===== src/Js/Buffered/RoundTrip.antt =====
-- `vcdiffDecode` after `vcdiffEncode`, on codecs that keep what open-vcdiff documents.
use node_vcdiff.Base.{
  ◌≤◌, true, false, none, some, Option, List, [], ◌∷◌, Bytes, ◌≡◌, sym, ap, ◌∙◌, arith, length,
}
use node_vcdiff.Codec.{Error, ok, encode, mode_code}
use node_vcdiff.Codec.OpenVcdiff.{OpenVcdiff}
use node_vcdiff.Codec.Dispatch.{any_coder}
use node_vcdiff.Codec.Alone.{Encodes, Decodes}
use node_vcdiff.Ctx.Session.{direct}
use node_vcdiff.Ctx.Session.Alone.{direct-encoder, made_alone}
use node_vcdiff.Ctx.Session.Codecs.{AppendsOutput}
use node_vcdiff.Binding.{Object, hashed_dictionary}
use node_vcdiff.Js.Options.{
  Options, make_vcdiff, is_false, is_true, format_flags, default_max_target_size,
}
use node_vcdiff.Js.Options.Encoding.{encoder_of}
use node_vcdiff.Js.Outcome.{Exception, returned, is_returned-cases, >>=-eq-returned}
use node_vcdiff.Js.Stream.{WritableState}
use node_vcdiff.Js.Collect.{Emitted, completed, Collector}
use node_vcdiff.Js.Sync.RoundTrip.{
  HasFormatFlags, flags_small, decoder_made, decode_with, default_fits,
}
use node_vcdiff.Js.Buffered.{end_with, vcdiff_encode, vcdiff_decode}
use node_vcdiff.Js.Buffered.Laws.{
  IsReadable, Ended, reply_of, vcdiff_encode-CallsBack, vcdiff_decode-CallsBack,
}

reply_of-completed :
    (spec : Error × Bytes) (made out : Bytes)
    → spec ≡ (ok, made)
    → reply_of spec ∷ [] ≡ completed out ∷ []
    → made ≡ out
reply_of-completed (_, made') made out e h = ground arith

module _ (V : OpenVcdiff) where
  module _ (events : List Bytes → Option Exception → List Emitted) where
    -- If `vcdiffEncode` with a `HashedDictionary`, in any format but JSON, calls back with `delta`, then
    -- `vcdiffDecode` of `delta` with that dictionary's buffer calls back once, with the data, if it is
    -- given no limits and may use VCD_TARGET. The data must fit the default limit of 64 MB, no encoder of
    -- open-vcdiff on the dictionary fails on it, the codecs append to their output and decode their
    -- deltas from any pieces, the format flags have the values of open-vcdiff's header, and node treats
    -- the streams as it documents.
    pub decode-encode :
        (enc_opts dec_opts : Options V) (dictionary target delta : Bytes) (d : V.HashedDictionary)
        (ws ws_end ws' ws_end' : WritableState) (c : Collector V)
        → AppendsOutput V
        → IsReadable events
        → Encodes V d target
        → Decodes V
        → HasFormatFlags V
        → V.init (V.make_dictionary dictionary) ≡ (true, d)
        → enc_opts.hashed_dictionary ≡ some (hashed_dictionary d)
        → is_true enc_opts.json ≡ false
        → dec_opts.dictionary ≡ some (Object.buffer dictionary)
        → is_false dec_opts.allow_vcd_target ≡ false
        → dec_opts.max_target_file_size ≡ none
        → dec_opts.max_target_window_size ≡ none
        → length target ≤ default_max_target_size
        → Ended V events ws target ws_end
        → Ended V events ws' delta ws_end'
        → vcdiff_encode V events true (end_with ws target ws_end) enc_opts ≡ returned c
        → c.replies ≡ completed delta ∷ []
        → (c' : Collector V) × (vcdiff_decode V events true (end_with ws' delta ws_end') dec_opts
            ≡ returned c')
          × (c'.replies ≡ completed target ∷ [])
    unfolding vcdiff_encode
    decode-encode enc_opts dec_opts dictionary target delta d ws ws_end ws' ws_end' c appends
          readable never_fails codec flags init h j b a nf nw fits ended ended' e replied =
        let (s, made, _) = >>=-eq-returned (make_vcdiff V enc_opts (mode_code encode)) _ e in
        let (wins, c1, all, e1, replies1, _) =
          vcdiff_encode-CallsBack V events appends readable enc_opts d s ws target ws_end ended h
            made in
        let same : c1.replies ≡ c.replies = cc in
        let small = flags_small V enc_opts flags j in
        let matches = is_true enc_opts.target_matches in
        let (delta', alone) =
          made_alone V _ (never_fails.encodes (format_flags V enc_opts) matches wins small all) in
        let delivered : delta' ≡ delta =
          reply_of-completed (direct (any_coder V) (encoder_of V enc_opts d) wins) delta' delta
            (direct-encoder V _ d wins delta' alone) (sym replies1 ∙ same ∙ replied) in
        let (s', made') = is_returned-cases _ (decoder_made V dec_opts dictionary b nf nw) in
        let (pieces, c', all', e', replies', _) =
          vcdiff_decode-CallsBack V events appends readable dec_opts dictionary s' ws' delta ws_end'
            ended' b made' in
        let decoded =
          codec.decodes dictionary delta wins pieces d (format_flags V enc_opts)
            default_max_target_size matches init small (default_fits V) (rw all fits)
            (alone ∙ ap some delivered) all' in
        let through = decode_with V dec_opts dictionary target pieces a (decoded ∙ ap some all) in
        (c', e', replies' ∙ ap (λ x. reply_of x ∷ []) through)
