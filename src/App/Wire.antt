-- ===== src/App/Wire.antt =====
-- The three routes behind the middlewares: what Register of internal/orders/handler.go and of
-- internal/drivers/handler.go mounts on the router of NewRouter, as cmd/platform/main.go joins them.
use fast_platform_modular.Base.{
  ℕ, String, ◌≡◌, refl, ◌⊎◌, inl, inr, Option, none, some, List, [], ◌∷◌, ◌++◌, Some,
}
use fast_platform_modular.Errors.{Result}
use fast_platform_modular.Errors.Abort.{LogLine}
use fast_platform_modular.Config.{Config}
use fast_platform_modular.Http.{Request, Answer, json, aborted}
use fast_platform_modular.Orders
use fast_platform_modular.Orders.Models.{OrderView}
use fast_platform_modular.Orders.Handler.{RequestInput}
use fast_platform_modular.Drivers
use fast_platform_modular.Middleware.{
  Incoming, telemetry_from_context, Action, abort_json, answer_json, Handler, Instrument, ◌▸◌,
}
use fast_platform_modular.Middleware.RequestId.{chosen_id}
use fast_platform_modular.Middleware.RequestId.Sanitize.{IsSafeId}
use fast_platform_modular.Middleware.RequestId.Generate.{IsRandom, chosen_id-IsSafeId}
use fast_platform_modular.Middleware.Cors.Preflight.{IsPreflight, IsCorsOf}
use fast_platform_modular.Middleware.Chain.{
  middlewares, run_chain, is_there, kept, abort_actions, log_actions,
}
use fast_platform_modular.Middleware.Chain.Safety.{common, Passes, chain-calm}
use fast_platform_modular.App.{
  World, Libraries, Setting, HttpCall, post_order, get_order, post_accept, rider_service,
  driver_service,
}
use fast_platform_modular.App.Statuses.{IsAmong, IsPlain, call-Answers}

-- What the encoder of c.JSON writes for each body.
pub record Encoder : Type 0 where
  pub requested : Orders.Models.OrderOutput → String
  pub view : OrderView → String
  pub accepted : Drivers.Models.OrderOutput → String

-- The routes; the first has what ShouldBindJSON gives for its body.
pub data Route : Type 0 where
  request_route : Result RequestInput → Route
  read_route : Route
  accept_route : Route

-- what a handler reads of the context; `param` is c.Param
abbrev pub read_request : (String → String) → Incoming → Request
read_request param r = record {
  method = r.method;
  path = r.path;
  header = r.header;
  param = param;
  ops = telemetry_from_context r;
}

unfoldable pub call_of : Route → Setting → Request → HttpCall
call_of (request_route body) at r = post_order at r body
call_of read_route at r = get_order at r
call_of accept_route at r = post_accept at r

-- c.JSON, or the calls of AbortError
unfoldable pub answer_actions : {A : Type 0} → (A → String) → Answer A → List Action
answer_actions encode (json status a) = answer_json status (encode a) ∷ []
answer_actions encode (aborted a) = abort_actions a

module _ {C : Type 0} (lib : Libraries C) (encoder : Encoder) where
  unfoldable pub call_actions : HttpCall → World C → List Action
  unfolding answer_actions
  call_actions (post_order at r body) w =
      answer_actions encoder.requested
        (Orders.Handler.request lib.is_uuid (rider_service lib at) at.call r body w).1
  call_actions (get_order at r) w =
      answer_actions encoder.view (Orders.Handler.get lib.is_uuid (rider_service lib at) r w).1
  call_actions (post_accept at r) w =
      answer_actions encoder.accepted
        (Drivers.Handler.accept lib.is_uuid (driver_service lib at) at.call r w).1

  -- the gin.HandlerFunc of a route
  unfoldable pub route_handler : Route → Setting → (String → String) → World C → Handler
  unfolding call_actions call_of
  route_handler route at param w r = record {
    actions = call_actions (call_of route at (read_request param r)) w;
    panic = none;
  }

-- The statuses of each route.
abbrev pub route_codes : Route → List ℕ
route_codes (request_route body) = 201 ∷ 500 ∷ 400 ∷ 409 ∷ []
route_codes read_route = 200 ∷ 500 ∷ 400 ∷ 404 ∷ []
route_codes accept_route = 201 ∷ 500 ∷ 400 ∷ 409 ∷ []

-- One response with the status: a body, or the error envelope behind its line in the log, if one is
-- kept.
abbrev pub IsResponse : ℕ → List Action → Type 0
IsResponse status actions =
    ((body : String) × (actions ≡ answer_json status body ∷ []))
    ⊎ ((line : Option LogLine) × (code : String) × (message : String) × (actions
          ≡ log_actions line ++ abort_json status code message ∷ []))

answer_actions-IsResponse :
    {A : Type 0} (encode : A → String) (codes : List ℕ) (a : Answer A)
    → IsAmong codes a
    → (status : ℕ) × Some (λ s. s ≡ status) codes × IsResponse status (answer_actions encode a)
unfolding answer_actions abort_actions
answer_actions-IsResponse encode codes (json status a) among = (status, among, inl (encode a, refl))
answer_actions-IsResponse encode codes (aborted a) among =
    (a.status, among, inr (a.log, a.code, a.message, refl))

module _ {C : Type 0} (lib : Libraries C) (encoder : Encoder) where
  route-IsResponse :
      (route : Route) (at : Setting) (r : Request) (w : World C)
      → IsPlain lib at
      → (status : ℕ) × Some (λ s. s ≡ status) (route_codes route)
        × IsResponse status (call_actions lib encoder (call_of route at r) w)
  unfolding call_actions call_of
  route-IsResponse (request_route body) at r w plain =
      answer_actions-IsResponse encoder.requested (route_codes (request_route body)) _
        (call-Answers lib (post_order at r body) w plain)
  route-IsResponse read_route at r w plain =
      answer_actions-IsResponse encoder.view (route_codes read_route) _
        (call-Answers lib (get_order at r) w plain)
  route-IsResponse accept_route at r w plain =
      answer_actions-IsResponse encoder.accepted (route_codes accept_route) _
        (call-Answers lib (post_accept at r) w plain)

  -- A call of a route that is no preflight gets one response, behind a safe request ID, the security
  -- headers, and the headers of CORS where the origin is granted. Its status is 201, 400, 409 or 500 for a
  -- request for an order and for an acceptance, and 200, 400, 404 or 500 for a read. The errors of the
  -- database, the connection and the cache are no HTTPError of their own, the telemetry client gives the
  -- error of its job and its instrumentation passes on to the rest of the chain, and rand.Read gives
  -- sixteen bytes or an error.
  pub route-responds :
      (cfg : Config) (tel : Option Instrument) (random : Option (List ℕ)) (route : Route)
      (at : Setting) (param : String → String) (w : World C) (r : Incoming)
      → ((instrument : Instrument) → tel ≡ some instrument → Passes instrument)
      → IsRandom random
      → IsPlain lib at
      → ¬ IsPreflight r
      → (id : String) × IsSafeId id
        × (before : List Action) × IsCorsOf cfg.cors_allowed_origins r before
        × (status : ℕ) × Some (λ s. s ≡ status) (route_codes route)
        × (response : List Action) × IsResponse status response
        × (run_chain (middlewares cfg tel random) (route_handler lib encoder route at param w) r
            ≡ common id ▸ before ▸ record { actions = response; panic = none })
  unfolding route_handler
  route-responds cfg tel random route at param w r passes sixteen plain p =
      let q = kept (is_there tel) r in
      let handler = route_handler lib encoder route at param w in
      let asked = read_request param q in
      let (status, among, response) = route-IsResponse route at asked w plain in
      let (before, is_cors, on) = chain-calm cfg tel random handler r passes p refl in
      (
        chosen_id random r,
        chosen_id-IsSafeId random r sixteen,
        before,
        is_cors,
        status,
        among,
        call_actions lib encoder (call_of route at asked) w,
        response,
        on,
      )
