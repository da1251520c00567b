-- ===== src/Ctx/Shared/Laws.antt =====
-- What holds of contexts that share dictionaries, whatever JavaScript loses and the collector takes.
use node_vcdiff.Base.{
  ℕ, Bool, true, false, not, ◌&&◌, ◌||◌, ◌==◌, is_some, ◌≡◌, refl, sym, ap, subst, ◌∙◌, arith,
  Bool-cases, inl, inr,
}
use node_vcdiff.Base.Run.{>>=-eq-return, return_inj}
use node_vcdiff.Codec.{Coder}
use node_vcdiff.Ctx.Defs.{is_busy, make_ctx}
use node_vcdiff.Ctx.Write.{process_shim}
use node_vcdiff.Ctx.Several.{Contexts, call, stop, exec_calls, pool_on, SeveralReach, SeveralStep}
use node_vcdiff.Ctx.Several.Runs.{set_other}
use node_vcdiff.Ctx.Several.Projection.{same_number}
use node_vcdiff.Ctx.Several.Frame.{are_on, exec_calls-Keeps, after_shim-Keeps}
use node_vcdiff.Ctx.Several
use node_vcdiff.Ctx.Several.Alive.{SeveralStep-alive}
use node_vcdiff.Ctx.Shared.{
  Shared, make_shared, new_with, with_all, delete, SharedStep, make, js, pool, loop, lose_handle,
  lose_dictionary, collect_handle, collect_dictionary, SharedReach, start, later,
}

module _ (C : Coder) (resets careful : Bool) where
  -- A context that is still to be made.
  pub record IsUnmade (s : C.State) (w : Shared C.State) (i : ℕ) : Type 0 where
    pub fresh : w.all i ≡ make_ctx s
    pub held : w.held i ≡ false
    pub pinned : w.pinned i ≡ false
    pub freed : w.freed i ≡ false

  -- A context whose coder is there.
  abbrev pub IsUsed : Shared C.State → ℕ → Type 0
  IsUsed w i = (w.made i ≡ true) × (w.freed i ≡ false) × (is_some (w.all i).coder ≡ true)

  pub record IsKept (s : ℕ → C.State) (w : Shared C.State) : Type 0 where
    pub real : SeveralReach C s w.all
    pub unmade : (i : ℕ) → w.made i ≡ false → IsUnmade (s i) w i
    pub pinned :
        (i : ℕ)
        → w.made i ≡ true
        → w.freed i ≡ false
        → is_some (w.all i).coder ≡ true
        → w.pinned i ≡ true
    pub kept : (i : ℕ) → w.pinned i ≡ true → w.dictionary_freed (w.uses i) ≡ false
    pub in_hand : (i : ℕ) → w.held i ≡ true → w.freed i ≡ false
    pub loose : resets ≡ true → (i : ℕ) → w.pinned i ≡ true → IsUsed w i
    pub at_hand : (d : ℕ) → w.dictionary_held d ≡ true → w.dictionary_freed d ≡ false

  -- A context that is busy was made.
  not_unmade :
      (s : ℕ → C.State) (w : Shared C.State) (j k : ℕ)
      → IsKept s w
      → is_busy (w.all k).work ≡ true
      → w.made j ≡ false
      → (j == k) ≡ false
  unfolding make_ctx
  not_unmade s w j k v busy m = elim (Bool-cases (j == k)) [
    | inl self ↦
        let idle = ap (λ c. is_busy c.work) (v.unmade j m).fresh in
        let same = ap (λ i. is_busy (w.all i).work) (same_number C k j self) in cc
    | inr other ↦ other
  ]

  with_all-IsKept :
      (s : ℕ → C.State) (w : Shared C.State) (all : Contexts C.State)
      → IsKept s w
      → SeveralStep C w.all all
      → ((j : ℕ) → w.made j ≡ false → all j ≡ w.all j)
      → IsKept s (with_all resets w all)
  unfolding with_all
  with_all-IsKept s w all v st same = record {
    real = Several.later v.real st;
    unmade = λ i m.
        let u = v.unmade i m in
        record {
          fresh = same i m ∙ u.fresh;
          held = u.held;
          pinned = ap (λ b. b && (is_some (all i).coder || not resets)) u.pinned;
          freed = u.freed;
        };
    pinned = λ i m f alive.
        let before = SeveralStep-alive C s w.all all i v.real st alive in
        ground (arith, v.pinned i m f before);
    kept = λ i h. v.kept i (ground arith);
    in_hand = v.in_hand;
    loose = λ on i h. ground (arith, v.loose on i);
    at_hand = v.at_hand;
  }

  new_with-IsKept :
      (s : ℕ → C.State) (w : Shared C.State) (i d : ℕ)
      → w.made i ≡ false
      → w.dictionary_held d ≡ true
      → IsKept s w
      → IsKept s (new_with i d w)
  unfolding new_with make_ctx
  new_with-IsKept s w i d fresh there v =
      let u = v.unmade i fresh in
      record {
        real = v.real;
        unmade = λ j m.
            let u' = v.unmade j (ground arith) in
            record {
              fresh = u'.fresh;
              held = ground (arith, u'.held);
              pinned = ground (arith, u'.pinned);
              freed = u'.freed;
            };
        pinned = λ j m f alive. ground (arith, v.pinned j);
        kept = λ j h. ground (arith, v.kept j, v.at_hand d there);
        in_hand = λ j h. ground (arith, v.in_hand j, u.freed);
        loose = λ on j h. elim (Bool-cases (j == i)) [
          | inl self ↦
              subst (IsUsed (new_with i d w)) (same_number C i j self)
                (ground arith, u.freed, ap (λ c. is_some c.coder) u.fresh)
          | inr other ↦ let (m, f, alive) = v.loose on j (ground arith) in (ground arith, f, alive)
        ];
        at_hand = v.at_hand;
      }

  delete-IsKept :
      (s : ℕ → C.State) (w : Shared C.State) (i : ℕ)
      → w.made i ≡ true
      → w.held i ≡ false
      → IsKept s w
      → IsKept s (delete resets i w)
  unfolding delete
  delete-IsKept s w i made lost v = record {
    real = v.real;
    unmade = λ j m.
        let u = v.unmade j m in
        let other : (j == i) ≡ false = ground arith in
        record {
          fresh = u.fresh;
          held = u.held;
          pinned = ground (arith, u.pinned);
          freed = ground (arith, u.freed);
        };
    pinned = λ j m f alive. ground (arith, v.pinned j);
    kept = λ j h. ground (arith, v.kept j);
    in_hand = λ j h. ground (arith, v.in_hand j);
    loose = λ on j h. ground (arith, v.loose on j);
    at_hand = v.at_hand;
  }

  SharedStep-IsKept :
      (s : ℕ → C.State) (w w' : Shared C.State)
      → IsKept s w
      → SharedStep C resets careful w w'
      → IsKept s w'
  unfolding pool_on exec_calls are_on
  SharedStep-IsKept s w _ v (make i d fresh there) = new_with-IsKept s w i d fresh there v
  SharedStep-IsKept s w _ v (js m all on e) = with_all-IsKept s w all v (Several.js m e) (λ j m'.
      exec_calls-Keeps C j w.held (v.unmade j m').held (call m stop) w.all all (rw on refl)
        (rw e refl))
  SharedStep-IsKept s w _ v (pool i request all alive q e) =
      with_all-IsKept s w all v (Several.pool i request q e) (λ j m.
        let (c, e1, e2) = >>=-eq-return (process_shim C request (w.all i)) _ e in
        sym (ap (λ f. f j) (return_inj e2))
        ∙ set_other i j c w.all (not_unmade s w j i v (ap is_busy q) m))
  SharedStep-IsKept s w _ v (loop i request inside all alive q on e) =
      with_all-IsKept s w all v (Several.loop i request inside q e) (λ j m.
        after_shim-Keeps C j (exec_calls C inside)
          (λ x x' ex. exec_calls-Keeps C j w.held (v.unmade j m).held inside x x' on ex) i
          (not_unmade s w j i v (ap is_busy q) m) w.all all e)
  SharedStep-IsKept s w _ v (lose_handle i idle) = record {
    real = v.real;
    unmade = λ j m.
        let u = v.unmade j m in
        record {
          fresh = u.fresh;
          held = ground (arith, u.held);
          pinned = u.pinned;
          freed = u.freed;
        };
    pinned = v.pinned;
    kept = v.kept;
    in_hand = λ j h. ground (arith, v.in_hand j);
    loose = v.loose;
    at_hand = v.at_hand;
  }
  SharedStep-IsKept s w _ v (lose_dictionary d) = record {
    real = v.real;
    unmade = λ j m.
        let u = v.unmade j m in
        record { fresh = u.fresh; held = u.held; pinned = u.pinned; freed = u.freed };
    pinned = v.pinned;
    kept = v.kept;
    in_hand = v.in_hand;
    loose = v.loose;
    at_hand = λ e h. ground (arith, v.at_hand e);
  }
  SharedStep-IsKept s w _ v (collect_handle i made lost alive) = delete-IsKept s w i made lost v
  SharedStep-IsKept s w _ v (collect_dictionary d lost loose) = record {
    real = v.real;
    unmade = λ j m.
        let u = v.unmade j m in
        record { fresh = u.fresh; held = u.held; pinned = u.pinned; freed = u.freed };
    pinned = v.pinned;
    kept = λ i h. ground (arith, v.kept i h, loose i);
    in_hand = v.in_hand;
    loose = v.loose;
    at_hand = λ e h. ground (arith, v.at_hand e);
  }

  pub SharedReach-IsKept :
      (s : ℕ → C.State) (w : Shared C.State) → SharedReach C resets careful s w → IsKept s w
  unfolding make_shared
  SharedReach-IsKept s w start = record {
    real = Several.start;
    unmade = λ i m. record { fresh = refl; held = refl; pinned = refl; freed = refl };
    pinned = λ i m f alive. cc;
    kept = λ i h. cc;
    in_hand = λ i h. refl;
    loose = λ on i h. cc;
    at_hand = λ d h. refl;
  }
  SharedReach-IsKept s w (later {w = u} r st) =
      SharedStep-IsKept s u w (SharedReach-IsKept s u r) st
