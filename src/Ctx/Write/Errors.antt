-- ===== src/Ctx/Write/Errors.antt =====
-- The error path of a write: `SendError`, entered while the write is still in progress.
use node_vcdiff.Base.{Bool, true, false, none, [], ◌∷◌, ◌++◌, ◌≡◌, ◌⊎◌, inl, inr, arith, Bool-cases}
use node_vcdiff.Base.Run.{Run, return, >>=-eq-return}
use node_vcdiff.Codec.{is_ok, get_error_string, error_code}
use node_vcdiff.Ctx.Defs.{Ctx, on_error, emit, close}
use node_vcdiff.Ctx.Write.{send_error, check_error}

module _ {S : Type 0} where
  -- JavaScript that at most closes the handle. While a write is in progress it can do no more.
  abbrev pub IsQuiet : (Ctx S → Run (Ctx S)) → Type 0
  IsQuiet js =
      (c c' : Ctx S)
      → c.write_in_progress ≡ true
      → js c ≡ return c'
      → (c' ≡ c) ⊎ (c' ≡ record c { pending_close = true })

  -- What a context looks like after its error was reported.
  pub record Failed (c c' : Ctx S) : Type 0 where
    pub idle : c'.write_in_progress ≡ false
    pub not_pending : c'.pending_close ≡ false
    pub work : c'.work ≡ c.work
    pub in_buffer : c'.in_buffer ≡ c.in_buffer
    pub state : c'.state ≡ c.state
    pub err : c'.err ≡ c.err
    pub output_buffer : c'.output_buffer ≡ c.output_buffer
    pub coder : (c'.coder ≡ c.coder) ⊎ (c'.coder ≡ none)
    pub closed : c.pending_close ≡ true → c'.coder ≡ none
    pub events : c'.events ≡ c.events ++ on_error (get_error_string c.err) (error_code c.err) ∷ []

  pub send_error-Failed :
      (js : Ctx S → Run (Ctx S)) (c c' : Ctx S)
      → IsQuiet js
      → c.write_in_progress ≡ true
      → send_error js c ≡ return c'
      → Failed c c'
  unfolding send_error close
  send_error-Failed js c c' quiet busy e =
      let c0 = emit (on_error (get_error_string c.err) (error_code c.err)) c in
      let (c1, e1, e2) = >>=-eq-return (js c0) _ e in ground (arith, quiet c0 c1 busy e1)

  -- `CheckError` passes a context without an error on as it is, and reports any other.
  pub check_error-cases :
      (js : Ctx S → Run (Ctx S)) (c : Ctx S) {r : Bool × Ctx S}
      → IsQuiet js
      → c.write_in_progress ≡ true
      → check_error js c ≡ return r
      → ((is_ok c.err ≡ true) × (r ≡ (true, c)))
        ⊎ ((is_ok c.err ≡ false) × (r.0 ≡ false) × Failed c r.1)
  unfolding check_error
  check_error-cases js c quiet busy e = elim (Bool-cases (is_ok c.err)) [
    | inl fine ↦ inl (fine, ground arith)
    | inr bad ↦
        let sent = >>=-eq-return (send_error js c) (λ c'. return (false, c')) (rw bad at e) in
        inr (
          bad,
          ground (arith, sent.2),
          ground (arith, sent.2, send_error-Failed js c sent.0 quiet busy sent.1),
        )
  ]
