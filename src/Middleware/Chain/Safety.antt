-- ===== src/Middleware/Chain/Safety.antt =====
-- What every response carries, and that no panic leaves the chain.
use fast_platform_modular.Base.{
  ℕ, String, ◌≡◌, refl, ◌∙◌, Bool, true, Option, none, some, List, [], ◌∷◌, ◌++◌, arith,
  if◌then◌else◌, Option-cases, Bool-cases, inl, inr, ap,
}
use fast_platform_modular.Errors.Abort.{sanitize_for_log}
use fast_platform_modular.Config.{Config}
use fast_platform_modular.Middleware.{
  Incoming, Action, set_telemetry, set_header, Run, Handler, Instrument, ◌▸◌, security_headers,
  security_actions, recovery, recovered, internal_abort, log_panic, telemetry_middleware, is_probe,
  adapted,
}
use fast_platform_modular.Middleware.RequestId.{request_id, chosen_id}
use fast_platform_modular.Middleware.RequestId.Sanitize.{IsSafeId}
use fast_platform_modular.Middleware.RequestId.Generate.{IsRandom, chosen_id-IsSafeId}
use fast_platform_modular.Middleware.Cors.{cors, answer}
use fast_platform_modular.Middleware.Cors.Preflight.{IsPreflight, IsCorsOf, cors-onward}
use fast_platform_modular.Middleware.Chain.{middlewares, run_chain, cors_of, kept, is_there}

-- No panic leaves the handler.
abbrev IsCalm : Handler → Type 0
IsCalm h = (r : Incoming) → (h r).panic ≡ none

recovery-IsCalm : (ops : Bool) (h : Handler) → IsCalm (recovery ops h)
unfolding recovery recovered
recovery-IsCalm ops h r = elim (Option-cases (h r).panic) [
  | inl e ↦ rw e refl
  | inr (text, e) ↦ rw e refl
]

cors-IsCalm : (origins : List String) (h : Handler) → IsCalm h → IsCalm (cors origins h)
unfolding cors answer
cors-IsCalm origins h calm r = ground (arith, calm r)

-- The rest of the chain behind the security headers, for the configured origins.
unfoldable pub inner : List String → Bool → Handler → Handler
inner origins ops h = run_chain (cors_of origins ++ recovery ops ∷ []) h

inner-IsCalm : (origins : List String) (ops : Bool) (h : Handler) → IsCalm (inner origins ops h)
unfolding inner run_chain cors_of
inner-IsCalm [] ops h = recovery-IsCalm ops h
inner-IsCalm (o ∷ origins) ops h =
    cors-IsCalm (o ∷ origins) (recovery ops h) (recovery-IsCalm ops h)

-- The headers that every response of the chain has.
abbrev pub common : String → List Action
common id = set_telemetry ∷ set_header "X-Request-ID" id ∷ security_actions

-- An instrumentation that calls its handler, with a request whose context still holds the gin context,
-- and makes no calls on it of its own.
abbrev pub Passes : Instrument → Type 0
Passes instrument = (handler : Bool → Run) (r : Incoming) → instrument handler r ≡ handler true

telemetry_middleware-onward :
    (tel : Option Instrument) (next : Handler) (r : Incoming)
    → ((instrument : Instrument) → tel ≡ some instrument → Passes instrument)
    → telemetry_middleware tel next r ≡ next r
unfolding telemetry_middleware
telemetry_middleware-onward none next r passes = refl
telemetry_middleware-onward (some instrument) next r passes =
    let on = passes instrument refl (adapted next r) r in
    elim (Bool-cases (is_probe r.path)) [ inl e ↦ rw e refl | inr e ↦ rw e on ]

chain-onward :
    (cfg : Config) (tel : Option Instrument) (random : Option (List ℕ)) (h : Handler) (r : Incoming)
    → ((instrument : Instrument) → tel ≡ some instrument → Passes instrument)
    → run_chain (middlewares cfg tel random) h r
      ≡ common (chosen_id random r)
        ▸ inner cfg.cors_allowed_origins (is_there tel) h (kept (is_there tel) r)
unfolding run_chain middlewares request_id security_headers inner
chain-onward cfg tel random h r passes = telemetry_middleware-onward tel _ r passes

-- Whatever the configuration, the request and the handler, a preflight and a panic included: before
-- anything else the response gets a safe request ID and the security headers, and no panic leaves the
-- chain. The instrumentation, if there is one, passes on to the rest of the chain, and rand.Read gives
-- sixteen bytes or an error.
pub chain-common :
    (cfg : Config) (tel : Option Instrument) (random : Option (List ℕ)) (h : Handler) (r : Incoming)
    → ((instrument : Instrument) → tel ≡ some instrument → Passes instrument)
    → IsRandom random
    → (id : String) × IsSafeId id
      × (rest : Run) × (rest.panic ≡ none)
      × (run_chain (middlewares cfg tel random) h r ≡ common id ▸ rest)
chain-common cfg tel random h r passes k = (
  chosen_id random r,
  chosen_id-IsSafeId random r k,
  inner cfg.cors_allowed_origins (is_there tel) h (kept (is_there tel) r),
  inner-IsCalm cfg.cors_allowed_origins (is_there tel) h (kept (is_there tel) r),
  chain-onward cfg tel random h r passes,
)

-- The health endpoints do not reach the instrumentation.
chain-probe :
    (cfg : Config) (instrument instrument' : Instrument) (random : Option (List ℕ)) (h : Handler)
    (r : Incoming)
    → is_probe r.path ≡ true
    → run_chain (middlewares cfg (some instrument) random) h r
      ≡ run_chain (middlewares cfg (some instrument') random) h r
unfolding run_chain middlewares telemetry_middleware
chain-probe cfg instrument instrument' random h r probe = rw probe refl

-- What `recovery` adds to the calls of a handler that panics.
abbrev recovery_actions : Bool → Incoming → String → List Action
recovery_actions ops r text =
    if ops
    then log_panic r.method (sanitize_for_log r.path) text ∷ internal_abort ∷ []
    else internal_abort ∷ []

recovery-panic :
    (ops : Bool) (h : Handler) (r : Incoming) (text : String)
    → (h r).panic ≡ some text
    → recovery ops h r
      ≡ record { actions = (h r).actions ++ recovery_actions ops r text; panic = none }
unfolding recovery recovered
recovery-panic ops h r text e = rw e refl

-- A request that is no preflight goes on to the handler behind the headers of CORS.
inner-onward :
    (origins : List String) (ops : Bool) (h : Handler) (r : Incoming)
    → ¬ IsPreflight r
    → (before : List Action) × IsCorsOf origins r before
      × (inner origins ops h r ≡ before ▸ recovery ops h r)
unfolding inner run_chain cors_of
inner-onward [] ops h r p = ([], (λ g. absurd g.1, λ n. refl), refl)
inner-onward (o ∷ origins) ops h r p =
    let (before, is_cors, on) = cors-onward (o ∷ origins) r p in
    (before, is_cors, on (recovery ops h))

recovery-calm :
    (ops : Bool) (h : Handler) (r : Incoming) → (h r).panic ≡ none → recovery ops h r ≡ h r
unfolding recovery recovered
recovery-calm ops h r calm = rw calm refl

-- What a handler that does not panic answers, behind the headers.
pub chain-calm :
    (cfg : Config) (tel : Option Instrument) (random : Option (List ℕ)) (h : Handler) (r : Incoming)
    → ((instrument : Instrument) → tel ≡ some instrument → Passes instrument)
    → ¬ IsPreflight r
    → (h (kept (is_there tel) r)).panic ≡ none
    → (before : List Action) × IsCorsOf cfg.cors_allowed_origins r before
      × (run_chain (middlewares cfg tel random) h r
          ≡ common (chosen_id random r) ▸ before ▸ h (kept (is_there tel) r))
chain-calm cfg tel random h r passes p calm =
    let q = kept (is_there tel) r in
    let (before, is_cors, on) = inner-onward cfg.cors_allowed_origins (is_there tel) h q p in
    let answered = on ∙ ap (λ run. before ▸ run) (recovery-calm (is_there tel) h q calm) in
    (
      before,
      is_cors,
      chain-onward cfg tel random h r passes
          ∙ ap (λ run. common (chosen_id random r) ▸ run) answered,
    )

-- A handler that panics is answered with the envelope 500 INTERNAL_ERROR behind the request ID, the
-- security headers, those of CORS where the origin is granted, and the calls that it had made; the
-- panic is gone, and it is logged where there is a telemetry client. The request is no preflight, and
-- the instrumentation, if there is one, passes on to the rest of the chain.
pub chain-panic :
    (cfg : Config) (tel : Option Instrument) (random : Option (List ℕ)) (h : Handler) (r : Incoming)
    (text : String)
    → ((instrument : Instrument) → tel ≡ some instrument → Passes instrument)
    → ¬ IsPreflight r
    → (h (kept (is_there tel) r)).panic ≡ some text
    → (before : List Action) × IsCorsOf cfg.cors_allowed_origins r before
      × (run_chain (middlewares cfg tel random) h r
          ≡ common (chosen_id random r) ▸ before ▸ record {
            actions = (h (kept (is_there tel) r)).actions ++ recovery_actions (is_there tel) r text;
            panic = none;
          })
chain-panic cfg tel random h r text passes p e =
    let q = kept (is_there tel) r in
    let (before, is_cors, on) = inner-onward cfg.cors_allowed_origins (is_there tel) h q p in
    let caught = recovery-panic (is_there tel) h q text e in
    (
      before,
      is_cors,
      chain-onward cfg tel random h r passes
          ∙ ap (λ run. common (chosen_id random r) ▸ run) (on ∙ ap (λ run. before ▸ run) caught),
    )
