-- ===== src/Tests/Endings.antt =====
-- An error of a stream in `vcdiffBuffer`.
use node_vcdiff.Base.{true, [], ◌∷◌, ◌≡◌, refl}
use node_vcdiff.Codec.{encode_error}
use node_vcdiff.Js.Options.{Vcdiff}
use node_vcdiff.Js.Outcome.{returned, ◌>>=◌, native}
use node_vcdiff.Js.Stream.{on_error}
use node_vcdiff.Js.Collect.{Collector, failed, readable, error, end, dispatch_all, vcdiff_buffer}
use node_vcdiff.Js.Collect.Laws.{collect_fails}
use node_vcdiff.Tests.Toy.{toy}
use node_vcdiff.Tests.Streams.{stream}

-- The stream is closed during its write, and meets an error. Afterwards it is readable once more and
-- ends.
abbrev closed_stream : Vcdiff toy
closed_stream = record stream { closed = true }

collect_fails_example :
    (c : Collector toy) × ((vcdiff_buffer toy true ((1 ∷ []) ∷ []) closed_stream
        >>= dispatch_all toy (
            readable ((3 ∷ []) ∷ [])
            ∷ error (native encode_error)
            ∷ readable ((4 ∷ []) ∷ [])
            ∷ end
            ∷ []))
      ≡ returned c)
    × (c.replies ≡ failed (native encode_error) ∷ [])
    × (c.buffers ≡ (1 ∷ []) ∷ (3 ∷ []) ∷ [])
    × (c.engine ≡ on_error toy closed_stream)
collect_fails_example =
    collect_fails toy ((1 ∷ []) ∷ []) (((3 ∷ []) ∷ []) ∷ []) (native encode_error)
      (readable ((4 ∷ []) ∷ []) ∷ end ∷ []) closed_stream refl
