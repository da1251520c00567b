-- ===== src/Codec/Log.antt =====
-- A coder that writes down the calls it gets, and the order of calls that open-vcdiff allows
-- (google/vcencoder.h: "StartEncoding EncodeChunk* FinishEncoding").
use node_vcdiff.Base.{Option, none, some, List, [], ◌∷◌, ◌++◌, Bytes, if◌then◌else◌}
use node_vcdiff.Codec.{Error, is_ok, Coder}

-- A call and the error code that it returned.
pub data Entry : Type 0 where
  started : Error → Entry
  processed : Bytes → Error → Entry
  finished : Error → Entry

-- The calls are listed newest first.
abbrev pub logged : Coder → Coder
logged C = record {
  State = C.State × List Entry;
  start = λ s out. let (e, out', s') = C.start s.0 out in (e, out', (s', started e ∷ s.1));
  process = λ s chunk out.
      let (e, out', s') = C.process s.0 chunk out in (e, out', (s', processed chunk e ∷ s.1));
  finish = λ s out. let (e, out', s') = C.finish s.0 out in (e, out', (s', finished e ∷ s.1));
}

-- Where a coder stands: not started, between its first and its last call, or through, because it
-- was finished or because a call failed.
pub data Phase : Type 0 where
  unstarted running over : Phase

abbrev advance : Phase → Entry → Option Phase
advance unstarted (started e) = some (if is_ok e then running else over)
advance running (processed chunk e) = some (if is_ok e then running else over)
advance running (finished e) = some over
advance _ _ = none

abbrev advance_from : Entry → Option Phase → Option Phase
advance_from entry none = none
advance_from entry (some p) = advance p entry

-- The phase after the calls of a log, or `none` if one of them was out of order.
abbrev pub phase_after : List Entry → Option Phase
phase_after [] = some unstarted
phase_after (entry ∷ log) = advance_from entry (phase_after log)

-- The chunks that the coder was given, in order.
abbrev pub chunks : List Entry → List Bytes
chunks [] = []
chunks (processed chunk e ∷ log) = chunks log ++ chunk ∷ []
chunks (started e ∷ log) = chunks log
chunks (finished e ∷ log) = chunks log
