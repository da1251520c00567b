-- ===== src/Js/Sync/Laws.antt =====
-- What the synchronous functions return.
use node_vcdiff.Base.{ℕ, true, false, some, [], ◌∷◌, Bytes, ◌≡◌, refl, arith, if◌then◌else◌}
use node_vcdiff.Base.Run.{returns-cases}
use node_vcdiff.Codec.{Error, encode, decode, mode_code, is_ok}
use node_vcdiff.Codec.OpenVcdiff.{OpenVcdiff}
use node_vcdiff.Codec.Dispatch.{AnyCoder, any_coder}
use node_vcdiff.Binding.{Object, hashed_dictionary}
use node_vcdiff.Ctx.Defs.{Ctx, make_ctx}
use node_vcdiff.Ctx.Write.{Written, result, no_result}
use node_vcdiff.Ctx.Session.{direct}
use node_vcdiff.Ctx.Session.Whole.{write_whole, write_whole-returns}
use node_vcdiff.Js.Options.{Options, Vcdiff, make_vcdiff}
use node_vcdiff.Js.Options.Limits.{decoder_of, decoder_settings}
use node_vcdiff.Js.Options.Encoding.{encoder_of, make_vcdiff-encoder_of}
use node_vcdiff.Js.Outcome.{Outcome, returned, threw, ◌>>=◌, native}
use node_vcdiff.Js.Sync.{
  buffer, after_write_sync, process_chunk_sync, vcdiff_buffer_sync, vcdiff_encode_sync,
  vcdiff_decode_sync,
}

-- The data if no call of the codec failed, and an exception for its error code otherwise.
abbrev pub of_direct : Error × Bytes → Outcome Bytes
of_direct (e, out) = if is_ok e then returned out else threw (native e)

module _ (V : OpenVcdiff) where
  after_write_sync-of_direct :
      (s : Vcdiff V) (r : Written × Ctx (AnyCoder V)) (spec : Error × Bytes)
      → s.closed ≡ false
      → s.attached ≡ true
      → (is_ok spec.0 ≡ true → r.0 ≡ result spec.1 true)
      → (is_ok spec.0 ≡ false → r.0 ≡ no_result)
      → r.1.err ≡ spec.0
      → (after_write_sync V s r >>= λ x. returned x.0) ≡ of_direct spec
  unfolding after_write_sync
  after_write_sync-of_direct s r spec open_still held fine bad err = ground arith

  -- On a new stream the synchronous call returns what the codec makes of the data when it is used
  -- directly, or throws the codec's error. None of its own checks and assertions fails.
  pub process_chunk_sync_lem :
      (k : AnyCoder V) (chunk : Bytes) (s : Vcdiff V)
      → s.ctx ≡ make_ctx k
      → s.closed ≡ false
      → s.attached ≡ true
      → (process_chunk_sync V chunk true s >>= λ r. returned r.0)
        ≡ of_direct (direct (any_coder V) k (chunk ∷ []))
  unfolding process_chunk_sync
  process_chunk_sync_lem k chunk s fresh open_still held =
      let (r, e) = returns-cases _ (write_whole-returns (any_coder V) k chunk) in
      let (fine, bad, err) = write_whole (any_coder V) k chunk e in
      rw (fresh, open_still, held, e)
        (after_write_sync-of_direct (record s { attached = true; ctx = make_ctx k; closed = false })
          r (direct (any_coder V) k (chunk ∷ [])) refl refl fine bad err)

  made-buffer_sync :
      (k : AnyCoder V) (chunk : Bytes) (m : Outcome (Vcdiff V)) (s : Vcdiff V)
      → m ≡ returned s
      → s.ctx ≡ make_ctx k
      → s.closed ≡ false
      → s.attached ≡ true
      → (m >>= λ engine. vcdiff_buffer_sync V engine (buffer chunk))
        ≡ of_direct (direct (any_coder V) k (chunk ∷ []))
  unfolding vcdiff_buffer_sync
  made-buffer_sync k chunk m s made fresh open_still held =
      rw made (process_chunk_sync_lem k chunk s fresh open_still held)

  make_vcdiff-new :
      (opts : Options V) (mode : ℕ) (s : Vcdiff V)
      → make_vcdiff V opts mode ≡ returned s
      → (s.closed ≡ false) × (s.attached ≡ true)
  unfolding make_vcdiff
  make_vcdiff-new opts mode s e = ground arith

  -- `vcdiffEncodeSync` of a buffer is what the encoder with the settings of the options makes of it.
  pub encode_sync_lem :
      (opts : Options V) (d : V.HashedDictionary) (chunk : Bytes) (s : Vcdiff V)
      → opts.hashed_dictionary ≡ some (hashed_dictionary d)
      → make_vcdiff V opts (mode_code encode) ≡ returned s
      → vcdiff_encode_sync V (buffer chunk) opts
        ≡ of_direct (direct (any_coder V) (encoder_of V opts d) (chunk ∷ []))
  unfolding vcdiff_encode_sync
  encode_sync_lem opts d chunk s h made =
      let (open_still, held) = make_vcdiff-new opts (mode_code encode) s made in
      made-buffer_sync (encoder_of V opts d) chunk _ s made
        (make_vcdiff-encoder_of V opts d s h made) open_still held

  -- `vcdiffDecodeSync` of a buffer is what the decoder with the default limits makes of it.
  pub decode_sync_lem :
      (opts : Options V) (bytes chunk : Bytes) (s : Vcdiff V)
      → opts.dictionary ≡ some (Object.buffer bytes)
      → make_vcdiff V opts (mode_code decode) ≡ returned s
      → vcdiff_decode_sync V (buffer chunk) opts
        ≡ of_direct (direct (any_coder V) (decoder_of V opts bytes) (chunk ∷ []))
  unfolding vcdiff_decode_sync
  decode_sync_lem opts bytes chunk s h made =
      let (open_still, held) = make_vcdiff-new opts (mode_code decode) s made in
      made-buffer_sync (decoder_of V opts bytes) chunk _ s made
        (decoder_settings V opts bytes s h made) open_still held
