-- ===== src/Js/Stream/Buffering.antt =====
-- What `_processChunk` buffers, and what it hands on.
use node_vcdiff.Base.{
  flatten, flatten-append, ℕ, ◌+◌, ◌-◌, ◌≤◌, ◌<◌, Bool, true, false, ◌||◌, Option, none, some, List,
  [], ◌∷◌, ◌++◌, Bytes, ◌≡◌, refl, ap, arith, length, length-append, append-nil, append_assoc, ◌==◌,
}
use node_vcdiff.Codec.{encode, decode, mode_code}
use node_vcdiff.Codec.OpenVcdiff.{OpenVcdiff}
use node_vcdiff.Js.Number.{int, pos}
use node_vcdiff.Js.Options.{Vcdiff}
use node_vcdiff.Js.Stream.{take, concat, buffer_chunk}

take-length : (xs : Bytes) → take (length xs) xs ≡ xs
take-length [] = refl
take-length (x ∷ xs) = rw (take-length xs)

pub concat-all :
    (chunks : List Bytes) (n : ℕ) → n ≡ length (flatten chunks) → concat chunks n ≡ flatten chunks
unfolding concat
concat-all chunks n e =
    let none_left : length (flatten chunks) - length (flatten chunks) ≡ 0 = omega arith in
    rw (e, none_left, append-nil, take-length)

-- The bytes of a window that may be missing.
abbrev pub bytes_of : Option Bytes → Bytes
bytes_of none = []
bytes_of (some window) = window

module _ (V : OpenVcdiff) where
  -- `_nread` counts the bytes in `_buffers`.
  abbrev pub IsCounted : Vcdiff V → Type 0
  IsCounted s = s.nread ≡ length (flatten s.buffers)

  module _ (chunk : Bytes) (force : Bool) (s : Vcdiff V) (counted : IsCounted s) where
    added : flatten (s.buffers ++ chunk ∷ []) ≡ flatten s.buffers ++ chunk
    added = rw (flatten-append, append-nil)

    counted_more : s.nread + length chunk ≡ length (flatten (s.buffers ++ chunk ∷ []))
    counted_more = omega (arith, ap length added, length-append {0} (flatten s.buffers) chunk)

    -- Nothing is lost, repeated or put out of order: the window that is handed on and what stays
    -- buffered are what was buffered and the new chunk.
    pub buffer_chunk_lossless :
        let (window, s') = buffer_chunk V chunk force s in
        (bytes_of window ++ flatten s'.buffers ≡ flatten s.buffers ++ chunk) × IsCounted s'
    unfolding buffer_chunk
    buffer_chunk_lossless = ground (
      arith,
      added,
      counted_more,
      concat-all (s.buffers ++ chunk ∷ []) (s.nread + length chunk) counted_more,
      append-nil {0} (flatten (s.buffers ++ chunk ∷ [])),
    )

  -- A forced chunk, and any chunk of a decoder, empties the buffers.
  pub buffer_chunk-forced :
      (chunk : Bytes) (force : Bool) (s : Vcdiff V)
      → IsCounted s
      → (force || s.mode == mode_code decode) ≡ true
      → let (window, s') = buffer_chunk V chunk force s in
        (window ≡ some (flatten s.buffers ++ chunk)) × (s'.buffers ≡ []) × (s'.nread ≡ 0)
  unfolding buffer_chunk
  buffer_chunk-forced chunk force s counted h = ground (
    arith,
    added chunk force s counted,
    counted_more chunk force s counted,
    concat-all (s.buffers ++ chunk ∷ []) (s.nread + length chunk)
        (counted_more chunk force s counted),
  )

  abbrev pub Windowed : ℕ → Option Bytes → ℕ → Type 0
  Windowed m none nread = nread < m
  Windowed m (some window) nread = (m ≤ length window) × (nread ≡ 0)

  -- An encoder that is not forced hands on windows of at least `minEncodeWindowSize` bytes, and
  -- keeps less than that.
  pub buffer_chunk-Windowed :
      (m : ℕ) (chunk : Bytes) (s : Vcdiff V)
      → IsCounted s
      → s.min_encode_window_size ≡ int (pos m)
      → s.mode ≡ mode_code encode
      → let (window, s') = buffer_chunk V chunk false s in Windowed m window s'.nread
  unfolding buffer_chunk mode_code
  buffer_chunk-Windowed m chunk s counted size enc = ground (
    arith,
    counted_more chunk false s counted,
    concat-all (s.buffers ++ chunk ∷ []) (s.nread + length chunk)
        (counted_more chunk false s counted),
  )

  -- A sequence of chunks, each forced or not: the windows that are handed on, in order.
  unfoldable pub buffer_all : List (Bytes × Bool) → Vcdiff V → List Bytes × Vcdiff V
  buffer_all [] s = ([], s)
  buffer_all ((chunk, force) ∷ chunks) s =
      let (window, s') = buffer_chunk V chunk force s in
      let (windows, s'') = buffer_all chunks s' in (bytes_of window ∷ windows, s'')

  abbrev pub all_bytes : List (Bytes × Bool) → Bytes
  all_bytes [] = []
  all_bytes ((chunk, force) ∷ chunks) = chunk ++ all_bytes chunks

  -- After any chunks and the forced empty chunk of `_flush`, the windows that were handed on are, end
  -- to end, the bytes that were written, and nothing stays buffered.
  pub buffer_all-flushed :
      (chunks : List (Bytes × Bool)) (s : Vcdiff V)
      → IsCounted s
      → let (windows, s') = buffer_all (chunks ++ ([], true) ∷ []) s in
        (flatten windows ≡ flatten s.buffers ++ all_bytes chunks)
        × (s'.buffers ≡ [])
        × (s'.nread ≡ 0)
  unfolding buffer_all
  buffer_all-flushed [] s counted =
      let (window, empty, none_read) = buffer_chunk-forced [] true s counted refl in
      (rw (window, append-nil), empty, none_read)
  buffer_all-flushed ((chunk, force) ∷ chunks) s counted =
      let (window, s1) = buffer_chunk V chunk force s in
      let (kept, counted1) = buffer_chunk_lossless chunk force s counted in
      let (rest, empty, none_read) = buffer_all-flushed chunks s1 counted1 in
      (rw (rest, ← append_assoc, kept, append_assoc), empty, none_read)
