-- ===== src/Codec/Recorded.antt =====
-- A coder that keeps what it has put out so far.
use node_vcdiff.Base.{[], ◌++◌, Bytes}
use node_vcdiff.Codec.{Coder}

-- The output of a call is taken to be what it appends to an empty string.
abbrev pub recorded : Coder → Coder
recorded C = record {
  State = C.State × Bytes;
  start =
      λ s out. let (e, out', s') = C.start s.0 out in (e, out', (s', s.1 ++ (C.start s.0 []).1));
  process = λ s chunk out.
      let (e, out', s') = C.process s.0 chunk out in
      (e, out', (s', s.1 ++ (C.process s.0 chunk []).1));
  finish =
      λ s out. let (e, out', s') = C.finish s.0 out in (e, out', (s', s.1 ++ (C.finish s.0 []).1));
}
