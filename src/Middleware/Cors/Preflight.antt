-- ===== src/Middleware/Cors/Preflight.antt =====
-- Which origins are granted, and how a preflight request ends.
use fast_platform_modular.Base.{
  String, ◌≡◌, ◌≢◌, ◌↔◌, ◌⊎◌, Bool, true, false, not, ◌&&◌, ◌||◌, List, [], ◌∷◌, arith, none, ◌==◌,
  eq_iff, if◌then◌else◌, Bool-cases, inl, inr, refl,
}
use fast_platform_modular.Middleware.{Incoming, Action, abort_status, Run, Handler, ◌▸◌}
use fast_platform_modular.Middleware.Cors.{Policy, collect, has_origin, cors_actions, answer, cors}

-- The origin is listed, or "*" is.
abbrev IsListed : String → List String → Type 0
IsListed origin [] = ⊥
IsListed origin (o ∷ origins) = ((o ≡ origin) ⊎ (o ≡ "*")) ⊎ IsListed origin origins

grants : Policy → String → Bool
grants p origin = p.wildcard || has_origin p.allowed origin

grants-collect :
    (p : Policy) (origins : List String) (origin : String)
    → (grants (collect p origins) origin ≡ true)
      ↔ ((grants p origin ≡ true) ⊎ IsListed origin origins)
unfolding grants collect has_origin
grants-collect p [] origin = ground arith
grants-collect p (o ∷ origins) origin =
    let tail =
      grants-collect
        (record { allowed = o ∷ p.allowed; wildcard = if o == "*" then true else p.wildcard })
        origins origin in
    ground (arith, tail, eq_iff o origin, eq_iff o "*")

-- The request names an origin that is granted.
abbrev pub IsGranted : List String → Incoming → Type 0
IsGranted origins r = (r.header "Origin" ≢ "") × IsListed (r.header "Origin") origins

abbrev pub IsPreflight : Incoming → Type 0
IsPreflight r = (r.method ≡ "OPTIONS") × (r.header "Access-Control-Request-Method" ≢ "")

-- 204, and the rest of the chain does not run.
abbrev pub stopped : Run
stopped = record { actions = abort_status 204 ∷ []; panic = none }

abbrev granted_test : Policy → Incoming → Bool
granted_test p r = not (r.header "Origin" == "") && grants p (r.header "Origin")

granted_test_iff :
    (origins : List String) (r : Incoming)
    → (granted_test (collect (record { allowed = []; wildcard = false }) origins) r ≡ true)
      ↔ IsGranted origins r
unfolding grants has_origin
granted_test_iff origins r = ground (
  arith,
  grants-collect (record { allowed = []; wildcard = false }) origins (r.header "Origin"),
  eq_iff (r.header "Origin") "",
)

-- The CORS headers, with the origin echoed, are set exactly when the request names an origin that is
-- listed, or any origin where "*" is listed. A preflight then ends with 204 and the rest of the chain
-- does not run; any other request goes on to it.
pub cors_lem :
    (origins : List String) (next : Handler) (r : Incoming)
    → (IsGranted origins r
        → IsPreflight r
        → cors origins next r ≡ cors_actions (r.header "Origin") ▸ stopped)
      × (IsGranted origins r
          → ¬ IsPreflight r
          → cors origins next r ≡ cors_actions (r.header "Origin") ▸ next r)
      × (¬ IsGranted origins r → IsPreflight r → cors origins next r ≡ stopped)
      × (¬ IsGranted origins r → ¬ IsPreflight r → cors origins next r ≡ next r)
unfolding cors answer grants
cors_lem origins next r =
    let test = granted_test_iff origins r in
    let method = eq_iff r.method "OPTIONS" in
    let asked = eq_iff (r.header "Access-Control-Request-Method") "" in
    (
      λ g p. ground (arith, test.1 g, method, asked),
      λ g p. ground (arith, test.1 g, method, asked),
      λ g p. ground (arith, test.0, method, asked),
      λ g p. ground (arith, test.0, method, asked),
    )

-- The headers that CORS sets in front of the rest of the chain.
abbrev pub IsCorsOf : List String → Incoming → List Action → Type 0
IsCorsOf origins r before =
    (IsGranted origins r → before ≡ cors_actions (r.header "Origin"))
    × (¬ IsGranted origins r → before ≡ [])

pub cors-onward :
    (origins : List String) (r : Incoming)
    → ¬ IsPreflight r
    → (before : List Action) × IsCorsOf origins r before
      × ((next : Handler) → cors origins next r ≡ before ▸ next r)
cors-onward origins r p =
    let test = granted_test_iff origins r in
    elim (Bool-cases
      (granted_test (collect (record { allowed = []; wildcard = false }) origins) r)) [
        | inl e ↦ (
          cors_actions (r.header "Origin"),
          (λ g. refl, λ n. absurd (n (test.0 e))),
          λ next. (cors_lem origins next r).1 (test.0 e) p,
        )
        | inr e ↦
            let n : ¬ IsGranted origins r = ground (arith, test.1, e) in
            ([], (λ g. absurd (n g), λ h. refl), λ next. (cors_lem origins next r).3 n p)
      ]
