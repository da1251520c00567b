-- ===== src/Codec/Alone.antt =====
-- open-vcdiff used on its own, with no part of the binding: the calls that google/vcencoder.h and
-- google/vcdecoder.h show, in order, on one output string.
use node_vcdiff.Base.{
  ℕ, ◌≤◌, length, Bool, Option, none, some, is_some, true, List, [], ◌∷◌, Bytes, flatten, ◌≡◌,
  if◌then◌else◌,
}
use node_vcdiff.Codec.OpenVcdiff.{OpenVcdiff}

module _ (V : OpenVcdiff) where
  -- Nothing if a call fails, and otherwise what is on the string at the end.
  unfoldable pub encode_chunks : V.Encoder → List Bytes → Bytes → Option Bytes
  encode_chunks e [] out =
      let (finished, out', e') = V.finish_encoding e out in if finished then some out' else none
  encode_chunks e (window ∷ rest) out =
      let (encoded, out', e') = V.encode_chunk e window out in
      let more = encode_chunks e' rest out' in if encoded then more else none

  unfoldable pub encode_alone : V.Encoder → List Bytes → Option Bytes
  unfolding encode_chunks
  encode_alone e windows =
      let (started, out, e') = V.start_encoding e [] in
      if started then encode_chunks e' windows out else none

  unfoldable pub decode_chunks : V.Decoder → List Bytes → Bytes → Option Bytes
  decode_chunks d [] out =
      let (finished, d') = V.finish_decoding d in if finished then some out else none
  decode_chunks d (piece ∷ rest) out =
      let (decoded, out', d') = V.decode_chunk d piece out in
      let more = decode_chunks d' rest out' in if decoded then more else none

  unfoldable pub decode_alone : V.Decoder → Bytes → List Bytes → Option Bytes
  unfolding decode_chunks
  decode_alone d dictionary pieces = decode_chunks (V.start_decoding d dictionary) pieces []

  -- A decoder that may use VCD_TARGET, with one limit for files and for windows.
  abbrev pub limited : ℕ → V.Decoder
  limited limit =
      (V.set_maximum_target_window_size
        (V.set_maximum_target_file_size (V.set_allow_vcd_target V.make_decoder true) limit).1
        limit).1

  -- No encoder on the dictionary fails on the data, in whatever windows it comes, in any format but
  -- JSON.
  pub record Encodes (d : V.HashedDictionary) (target : Bytes) : Type 0 where
    pub encodes :
        (flags : ℕ) (matches : Bool) (windows : List Bytes)
        → flags ≤ 3
        → flatten windows ≡ target
        → is_some (encode_alone (V.make_encoder d flags matches) windows) ≡ true

  -- What open-vcdiff promises of an encoder and a decoder on one dictionary: if no call of the encoder
  -- fails and it makes `delta` of some windows, in any format but JSON, no call of the decoder fails and
  -- it makes of `delta`, cut into any pieces, what the windows are end to end, unless that is longer
  -- than the decoder's limits, which fit 31 bits.
  pub record Decodes : Type 0 where
    pub decodes :
        (dictionary delta : Bytes) (windows pieces : List Bytes) (d : V.HashedDictionary)
        (flags limit : ℕ) (matches : Bool)
        → V.init (V.make_dictionary dictionary) ≡ (true, d)
        → flags ≤ 3
        → limit ≤ 2147483647
        → length (flatten windows) ≤ limit
        → encode_alone (V.make_encoder d flags matches) windows ≡ some delta
        → flatten pieces ≡ delta
        → decode_alone (limited limit) dictionary pieces ≡ some (flatten windows)
