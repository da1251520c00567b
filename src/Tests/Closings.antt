-- ===== src/Tests/Closings.antt =====
-- A stream that is closed while the pool has its first window.
use node_vcdiff.Base.{true, false, some, [], ◌∷◌, ◌≡◌, refl}
use node_vcdiff.Ctx.Defs
use node_vcdiff.Js.Options.{Vcdiff}
use node_vcdiff.Js.Outcome.{◌>>=◌}
use node_vcdiff.Js.Stream.{accepted, close}
use node_vcdiff.Js.Stream.Flushing.{IsReady, queued_on}
use node_vcdiff.Js.Run.{resume}
use node_vcdiff.Js.Run.Closing.{then_close, close_waits}
use node_vcdiff.Tests.Toy.{toy}
use node_vcdiff.Tests.Streams.{stream, stream-IsSound}

stream-IsReady : IsReady toy stream
stream-IsReady = record {
  sound = stream-IsSound;
  open_still = refl;
  attached = refl;
  free = refl;
  counted = refl;
}

abbrev at_work : Vcdiff toy
at_work = queued_on toy (1 ∷ 2 ∷ []) false stream

abbrev closed_early : Vcdiff toy
closed_early = record at_work { closed = true; ctx = record at_work.ctx { pending_close = true } }

close_waits_example :
    resume toy (accepted (some (1 ∷ 2 ∷ [])) closed_early)
    ≡ (resume toy (accepted (some (1 ∷ 2 ∷ [])) at_work) >>= then_close toy)
unfolding close Defs.close
close_waits_example = close_waits toy (1 ∷ 2 ∷ []) false stream closed_early stream-IsReady refl
