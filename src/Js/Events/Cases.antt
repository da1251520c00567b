-- ===== src/Js/Events/Cases.antt =====
-- The two ways of `close` with a callback.
use node_vcdiff.Base.{
  ℕ, Bool, true, false, Option, none, some, ◌≡◌, ◌⊎◌, inl, inr, refl, ap, Bool-cases, if◌then◌else◌,
}
use node_vcdiff.Codec.OpenVcdiff.{OpenVcdiff}
use node_vcdiff.Js.Outcome.{returned}
use node_vcdiff.Js.Stream.{close}
use node_vcdiff.Js.Events.{Events, next_tick, closing, close_with}

module _ (V : OpenVcdiff) where
  pub next_tick-stream : (c : Option ℕ) (w : Events V) → (next_tick V c w).stream ≡ w.stream
  next_tick-stream none w = refl
  next_tick-stream (some n) w = refl

  pub close_with-cases :
      (c : Option ℕ) (w : Events V)
      → ((w.stream.closed ≡ true) × (close_with V c w ≡ (returned tt, next_tick V c w)))
        ⊎ ((w.stream.closed ≡ false)
            × (close_with V c w ≡ closing V (close V w.stream) (next_tick V c w)))
  unfolding close_with
  close_with-cases c w =
      let w' = next_tick V c w in
      let pick = λ (b : Bool). if b then (returned tt, w') else closing V (close V w.stream) w' in
      elim (Bool-cases w.stream.closed) [
        | inl shut ↦ inl (shut, ap pick shut)
        | inr opened ↦ inr (opened, ap pick opened)
      ]
