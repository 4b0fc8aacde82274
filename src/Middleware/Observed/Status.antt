-- ===== src/Middleware/Observed/Status.antt =====
-- The status that the telemetry library is told.
use fast_platform_modular.Base.{
  ℕ, String, ◌≡◌, refl, ◌∙◌, true, false, inl, inr, List, [], ◌∷◌, ◌++◌, arith, Bool-cases,
}
use fast_platform_modular.Middleware.Observed.{
  Writers, write_header_now, write_body, WriterCall, set_status, header_now, body, run_call,
  run_calls,
}

-- What gin and the telemetry library promise, where `told s` are the codes that the wrapper was given:
-- WriteHeader of gin sets the status until the header is written; WriteHeaderNow writes it; the
-- wrapper notes the code; a write of the body after the header changes neither.
pub record Laws {S : Type 0} (w : Writers S) (told : S → List ℕ) : Type 0 where
  pub set_written : (code : ℕ) (s : S) → w.written (w.gin_write_header code s) ≡ w.written s
  pub set_told : (code : ℕ) (s : S) → told (w.gin_write_header code s) ≡ told s
  pub set_late :
      (code : ℕ) (s : S) → w.written s ≡ true → w.status (w.gin_write_header code s) ≡ w.status s
  pub now_written : (s : S) → w.written (w.gin_write_header_now s) ≡ true
  pub now_status : (s : S) → w.status (w.gin_write_header_now s) ≡ w.status s
  pub now_told : (s : S) → told (w.gin_write_header_now s) ≡ told s
  pub note_status : (s : S) → w.status (w.wrapper_write_header (w.status s) s) ≡ w.status s
  pub note_told : (code : ℕ) (s : S) → told (w.wrapper_write_header code s) ≡ told s ++ code ∷ []
  pub write_written :
      (text : String) (s : S) → w.written s ≡ true → w.written (w.wrapper_write text s).0 ≡ true
  pub write_status :
      (text : String) (s : S)
      → w.written s ≡ true
      → w.status (w.wrapper_write text s).0 ≡ w.status s
  pub write_told :
      (text : String) (s : S) → w.written s ≡ true → told (w.wrapper_write text s).0 ≡ told s

module _ {S : Type 0} (w : Writers S) (told : S → List ℕ) (laws : Laws w told) where
  -- The wrapper was told the status once it is written, and nothing before.
  record IsTold (s : S) : Type 0 where
    early : w.written s ≡ false → told s ≡ []
    late : w.written s ≡ true → told s ≡ w.status s ∷ []

  now-IsTold :
      (s : S)
      → IsTold s
      → (w.written (write_header_now w s) ≡ true)
        × (told (write_header_now w s) ≡ w.status (write_header_now w s) ∷ [])
  unfolding write_header_now
  now-IsTold s h = elim (Bool-cases (w.written s)) [
    | inl written ↦
        rw (write_header_now, written)
          (laws.now_written s, rw (laws.now_told s, laws.now_status s) (h.late written))
    | inr unwritten ↦
        let noted = w.wrapper_write_header (w.status s) s in
        rw (write_header_now, unwritten)
          (
            laws.now_written noted,
            rw
                (
                  laws.now_told noted,
                  laws.now_status noted,
                  laws.note_told (w.status s) s,
                  laws.note_status s,
                  h.early unwritten,
                )
                refl,
          )
  ]

  written-IsTold : (s : S) → (w.written s ≡ true) → (told s ≡ w.status s ∷ []) → IsTold s
  written-IsTold s written e = record { early = λ unwritten. ground arith; late = λ _. e }

  run_call-IsTold : (c : WriterCall) (s : S) → IsTold s → IsTold (run_call w c s)
  unfolding run_call write_body
  run_call-IsTold (set_status code) s h = record {
    early = λ unwritten. laws.set_told code s ∙ h.early (ground (arith, laws.set_written code s));
    late = λ written.
        let before : w.written s ≡ true = ground (arith, laws.set_written code s) in
        rw (laws.set_told code s, laws.set_late code s before) (h.late before);
  }
  run_call-IsTold header_now s h =
      let (written, e) = now-IsTold s h in written-IsTold (write_header_now w s) written e
  run_call-IsTold (body text) s h =
      let (written, e) = now-IsTold s h in
      written-IsTold _ (laws.write_written text (write_header_now w s) written) (
        rw
          (
            laws.write_told text (write_header_now w s) written,
            laws.write_status text (write_header_now w s) written,
          )
          e)

  run_calls-IsTold :
      (calls : List WriterCall) (s : S)
      → IsTold s
      → (w.written (run_calls w calls s) ≡ true)
        × (told (run_calls w calls s) ≡ w.status (run_calls w calls s) ∷ [])
  unfolding run_calls
  run_calls-IsTold [] s h = now-IsTold s h
  run_calls-IsTold (c ∷ calls) s h = run_calls-IsTold calls (run_call w c s) (run_call-IsTold c s h)

  -- Whatever a handler writes through WriteHeaderNow, Write and WriteString, be it nothing, at the end the
  -- header is written, and the telemetry library was told exactly one status, the one of the response.
  -- At first nothing is written and no status was told.
  pub run_calls-told :
      (calls : List WriterCall) (s : S)
      → w.written s ≡ false
      → told s ≡ []
      → (w.written (run_calls w calls s) ≡ true)
        × (told (run_calls w calls s) ≡ w.status (run_calls w calls s) ∷ [])
  run_calls-told calls s unwritten none_yet =
      run_calls-IsTold calls s (record { early = λ _. none_yet; late = λ written. ground arith })
