-- ===== src/Ctx/Shared/Safety.antt =====
-- Whether a thread of the pool can find memory that was given back.
use node_vcdiff.Base.{
  ℕ, Bool, true, false, ◌==◌, ◌≡◌, refl, sym, ap, ◌∙◌, arith, Bool-cases, inl, inr,
}
use node_vcdiff.Base.Run.{returns, >>=-eq-return, return_inj}
use node_vcdiff.Codec.{Coder}
use node_vcdiff.Ctx.Defs.{WorkData, queued, is_busy, make_ctx}
use node_vcdiff.Ctx.Write.{process_shim}
use node_vcdiff.Ctx.Pool.{pool_safe}
use node_vcdiff.Ctx.Invariant.Steps.{Reach-Inv}
use node_vcdiff.Ctx.Several.{Contexts, call, stop, exec_calls, pool_on}
use node_vcdiff.Ctx.Several.Runs.{set_other}
use node_vcdiff.Ctx.Several.Frame.{are_on, exec_calls-Keeps, after_shim-Keeps}
use node_vcdiff.Ctx.Several.Projection.{same_number, SeveralReach-Reach}
use node_vcdiff.Ctx.Shared.{
  Shared, make_shared, new_with, with_all, delete, SharedStep, make, js, pool, loop, lose_handle,
  lose_dictionary, collect_handle, collect_dictionary, SharedReach, start, later,
}
use node_vcdiff.Ctx.Shared.Laws.{IsKept, SharedReach-IsKept}

module _ (C : Coder) (resets : Bool) where
  -- The handle of a context whose request the pool or the event loop has was not lost.
  abbrev IsHeld : Shared C.State → Type 0
  IsHeld w = (i : ℕ) → is_busy (w.all i).work ≡ true → (w.held i ≡ true) × (w.freed i ≡ false)

  -- A step that leaves the contexts alone that are not held makes none of them busy.
  moved-IsHeld :
      (s : ℕ → C.State) (w : Shared C.State) (all : Contexts C.State)
      → IsKept C resets true s w
      → ((j : ℕ) → w.held j ≡ false → all j ≡ w.all j)
      → IsHeld w
      → IsHeld (with_all resets w all)
  unfolding with_all
  moved-IsHeld s w all v same h j busy = elim (Bool-cases (w.held j)) [
    | inl held ↦ (held, v.in_hand j held)
    | inr lost ↦ h j (ap (λ c. is_busy c.work) (sym (same j lost)) ∙ busy)
  ]

  -- A context that is busy is held, so one that is not held is another one.
  not_this :
      (w : Shared C.State) (j k : ℕ)
      → IsHeld w
      → is_busy (w.all k).work ≡ true
      → w.held j ≡ false
      → (j == k) ≡ false
  not_this w j k h busy lost = elim (Bool-cases (j == k)) [
    | inl self ↦
        let there = (h k busy).0 in
        let same : w.held k ≡ w.held j = ap w.held (same_number C k j self) in cc
    | inr other ↦ other
  ]

  SharedStep-IsHeld :
      (s : ℕ → C.State) (w w' : Shared C.State)
      → IsKept C resets true s w
      → IsHeld w
      → SharedStep C resets true w w'
      → IsHeld w'
  unfolding pool_on new_with delete exec_calls are_on
  SharedStep-IsHeld s w _ v h (make i d fresh there) = λ j busy. ground (arith, h j)
  SharedStep-IsHeld s w _ v h (js m all on e) =
      moved-IsHeld s w all v
        (λ j lost.
          exec_calls-Keeps C j w.held lost (call m stop) w.all all (rw on refl) (rw e refl))
        h
  SharedStep-IsHeld s w _ v h (pool k request all alive q e) =
      moved-IsHeld s w all v
        (λ j lost.
          let (c, e1, e2) = >>=-eq-return (process_shim C request (w.all k)) _ e in
          sym (ap (λ f. f j) (return_inj e2))
          ∙ set_other k j c w.all (not_this w j k h (ap is_busy q) lost))
        h
  SharedStep-IsHeld s w _ v h (loop k request inside all alive q on e) =
      moved-IsHeld s w all v
        (λ j lost.
          after_shim-Keeps C j (exec_calls C inside)
            (λ x x' ex. exec_calls-Keeps C j w.held lost inside x x' on ex) k
            (not_this w j k h (ap is_busy q) lost) w.all all e)
        h
  SharedStep-IsHeld s w _ v h (lose_handle i idle) = λ j busy.
      let writing : (w.all j).write_in_progress ≡ true =
        (Reach-Inv C (SeveralReach-Reach C s w.all v.real j)).0.in_flight ∙ busy in
      let other : (j == i) ≡ false = elim (Bool-cases (j == i)) [
        | inl self ↦
            let still = ap (λ k. (w.all k).write_in_progress) (same_number C i j self) in
            let no = idle refl in cc
        | inr other ↦ other
      ] in
      ground (arith, h j busy)
  SharedStep-IsHeld s w _ v h (lose_dictionary d) = h
  SharedStep-IsHeld s w _ v h (collect_handle i made lost alive) =
      λ j busy. ground (arith, h j busy, not_this w i j h busy lost)
  SharedStep-IsHeld s w _ v h (collect_dictionary d lost loose) = h

  SharedReach-IsHeld :
      (s : ℕ → C.State) (w : Shared C.State) → SharedReach C resets true s w → IsHeld w
  unfolding make_shared make_ctx
  SharedReach-IsHeld s w start = λ i busy. cc
  SharedReach-IsHeld s w (later {w = u} r st) =
      SharedStep-IsHeld s u w (SharedReach-IsKept C resets true s u r) (SharedReach-IsHeld s u r) st

  -- If JavaScript calls only what it can reach and keeps each handle during its writes, then, however
  -- many contexts share dictionaries and the pool, and whatever JavaScript loses and the collector
  -- takes, each thread finds its context and the dictionary of its coder in memory, and no assertion
  -- of `Process` fails.
  pub shared_memory_safe :
      (s : ℕ → C.State) (w : Shared C.State) (i : ℕ) (request : WorkData)
      → SharedReach C resets true s w
      → (w.all i).work ≡ queued request
      → (w.freed i ≡ false)
        × (w.dictionary_freed (w.uses i) ≡ false)
        × (returns (pool_on C i request w.all) ≡ true)
  unfolding pool_on
  shared_memory_safe s w i request r q =
      let v = SharedReach-IsKept C resets true s w r in
      let (held, alive) = SharedReach-IsHeld s w r i (ap is_busy q) in
      let (coder, goes, _) =
        pool_safe C (s i) (w.all i) request (SeveralReach-Reach C s w.all v.real i) q in
      let made : w.made i ≡ true = elim (Bool-cases (w.made i)) [
        | inl made ↦ made
        | inr not_yet ↦ let lost = (v.unmade i not_yet).held in cc
      ] in
      (alive, v.kept i (v.pinned i made alive coder), ground (arith, goes))
