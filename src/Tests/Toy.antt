-- ===== src/Tests/Toy.antt =====
-- A codec in the place of open-vcdiff: a delta is a header byte and then the data.
use node_vcdiff.Base.{
  ℕ, Bool, true, false, [], ◌∷◌, ◌++◌, Bytes, ◌≡◌, refl, arith, append-nil, append_assoc, some,
  List, flatten, sym, ◌∙◌, if◌then◌else◌, ◌==◌,
}
use node_vcdiff.Codec.{Coder}
use node_vcdiff.Codec.OpenVcdiff.{OpenVcdiff}
use node_vcdiff.Codec.Dispatch.{AnyCoder, encoder, decoder, any_coder}
use node_vcdiff.Ctx.Session.{IsAppending}
use node_vcdiff.Ctx.Session.Codecs.{AppendsOutput, any_coder-IsAppending}
use node_vcdiff.Js.Sync.RoundTrip.{HasFormatFlags}
use node_vcdiff.Codec.Alone.{
  encode_chunks, encode_alone, decode_chunks, decode_alone, Encodes, Decodes,
}

abbrev pub header : ℕ
header = 0xd6

-- A decoder knows whether it has seen the header, and fails where it should come and does not.
abbrev pub decode_toy : Bool → Bytes → Bytes → Bool × Bytes × Bool
decode_toy true chunk out = (true, out ++ chunk, true)
decode_toy false [] out = (true, out ++ [], false)
decode_toy false (x ∷ chunk) out =
    if x == header then (true, out ++ chunk, true) else (false, out ++ [], false)

abbrev pub toy : OpenVcdiff
toy = record {
  HashedDictionary = Bytes;
  Encoder = Bool;
  Decoder = Bool;
  make_dictionary = λ bytes. bytes;
  init = λ d. (true, d);
  make_encoder = λ d flags matches. false;
  start_encoding = λ e out. (true, out ++ header ∷ [], true);
  encode_chunk = λ e chunk out. (e, out ++ chunk, e);
  finish_encoding = λ e out. (e, out ++ [], false);
  make_decoder = false;
  set_allow_vcd_target = λ d allow. d;
  set_maximum_target_file_size = λ d size. (true, d);
  set_maximum_target_window_size = λ d size. (true, d);
  start_decoding = λ d dictionary. false;
  decode_chunk = decode_toy;
  finish_decoding = λ d. (true, d);
  vcd_standard_format = 0;
  vcd_format_interleaved = 1;
  vcd_format_checksum = 2;
  vcd_format_json = 4;
}

abbrev pub toy_coder : Coder
toy_coder = any_coder toy

abbrev pub dictionary : Bytes
dictionary = 7 ∷ 8 ∷ []

abbrev pub toy_encoder : AnyCoder toy
toy_encoder = encoder (record { encoder = false; hashed_dictionary = dictionary })

abbrev pub toy_decoder : AnyCoder toy
toy_decoder = decoder (record { decoder = false; dictionary_buffer = dictionary })

pub toy-HasFormatFlags : HasFormatFlags toy
toy-HasFormatFlags = record { standard = refl; interleaved = refl; checksum = refl; json = refl }

encode_rest :
    (windows : List Bytes) (out : Bytes)
    → encode_chunks toy true windows out ≡ some (out ++ flatten windows)
unfolding encode_chunks
encode_rest [] out = refl
encode_rest (window ∷ windows) out = rw (encode_rest windows (out ++ window), append_assoc) refl

decode_rest :
    (pieces : List Bytes) (out : Bytes)
    → decode_chunks toy true pieces out ≡ some (out ++ flatten pieces)
unfolding decode_chunks
decode_rest [] out = rw append-nil refl
decode_rest (piece ∷ pieces) out = rw (decode_rest pieces (out ++ piece), append_assoc) refl

-- The header may come after empty pieces.
decode_header :
    (pieces : List Bytes) (target out : Bytes)
    → flatten pieces ≡ header ∷ target
    → decode_chunks toy false pieces out ≡ some (out ++ target)
unfolding decode_chunks
decode_header [] target out e = cc
decode_header ([] ∷ pieces) target out e =
    rw (decode_header pieces target (out ++ []) e, append-nil) refl
decode_header ((x ∷ piece) ∷ pieces) target out e =
    let first : x ≡ header = cc in
    let rest : piece ++ flatten pieces ≡ target = cc in
    rw (first, decode_rest pieces (out ++ piece), append_assoc, rest) refl

pub toy-Encodes : (target : Bytes) → Encodes toy dictionary target
unfolding encode_alone
toy-Encodes target = record {
  encodes = λ flags matches windows small all. rw (encode_rest windows (header ∷ [])) refl;
}

pub toy-Decodes : Decodes toy
unfolding encode_alone decode_alone
toy-Decodes = record {
  decodes = λ bytes delta windows pieces d flags limit matches init small low fits e cut.
      let encoded = encode_rest windows (header ∷ []) in
      let same : header ∷ flatten windows ≡ delta = cc in
      decode_header pieces (flatten windows) [] (cut ∙ sym same);
}

decode_toy-append :
    (d : Bool) (chunk out : Bytes)
    → decode_toy d chunk out ≡ (let (done, o, d') = decode_toy d chunk [] in (done, out ++ o, d'))
decode_toy-append true chunk out = refl
decode_toy-append false [] out = refl
decode_toy-append false (x ∷ chunk) out = ground (arith, append-nil {0} out)

pub toy-AppendsOutput : AppendsOutput toy
toy-AppendsOutput = record {
  start_encoding = λ e out. refl;
  encode_chunk = λ e chunk out. refl;
  finish_encoding = λ e out. refl;
  decode_chunk = decode_toy-append;
}

pub toy-IsAppending : IsAppending toy_coder
toy-IsAppending = any_coder-IsAppending toy toy-AppendsOutput
