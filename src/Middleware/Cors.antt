-- ===== src/Middleware/Cors.antt =====
-- The middleware `cors`.
pub mod Preflight
use fast_platform_modular.Base.{
  String, Bool, true, false, not, none, ◌&&◌, ◌||◌, List, [], ◌∷◌, any, concat, ◌==◌, if◌then◌else◌,
}
use fast_platform_modular.Middleware.{
  Incoming, Action, set_header, abort_status, Run, Handler, Middleware, ◌▸◌,
}
use fast_platform_modular.Middleware.RequestId.{request_id_header}

-- The map `allowed` as the list of its keys, and the flag `wildcard`.
pub record Policy : Type 0 where
  pub allowed : List String
  pub wildcard : Bool

-- the loop over the origins
unfoldable pub collect : Policy → List String → Policy
collect p [] = p
collect p (origin ∷ origins) =
    collect
      (record {
        allowed = origin ∷ p.allowed;
        wildcard = if origin == "*" then true else p.wildcard;
      })
      origins

-- hasOrigin
unfoldable pub has_origin : List String → String → Bool
has_origin allowed origin = any (λ o. o == origin) allowed

abbrev pub cors_actions : String → List Action
cors_actions origin =
    set_header "Access-Control-Allow-Origin" origin
    ∷ set_header "Vary" "Origin"
    ∷ set_header "Access-Control-Allow-Methods" "GET, POST, PUT, PATCH, DELETE, OPTIONS"
    ∷ set_header "Access-Control-Allow-Headers"
        (concat "Authorization, Content-Type, " request_id_header)
    ∷ set_header "Access-Control-Max-Age" "600"
    ∷ []

-- the handler that `cors` returns
unfoldable pub answer : Policy → Middleware
answer p next r =
    let origin = r.header "Origin" in
    let granted = not (origin == "") && (p.wildcard || has_origin p.allowed origin) in
    let before = if granted then cors_actions origin else [] in
    let rest = next r in
    if r.method == "OPTIONS" && not (r.header "Access-Control-Request-Method" == "")
    then before ▸ record { actions = abort_status 204 ∷ []; panic = none }
    else before ▸ rest

unfoldable pub cors : List String → Middleware
cors origins = answer (collect (record { allowed = []; wildcard = false }) origins)
