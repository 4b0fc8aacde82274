-- ===== src/Tests/Web.antt =====
-- Requests and middlewares: who sees an order, preflights, panics, request IDs.
use fast_platform_modular.Base.{
  ℕ, String, ◌≡◌, refl, sym, ap, ◌↔◌, true, Option, none, some, List, [], ◌∷◌, arith, eq_iff, ◌==◌,
  if◌then◌else◌,
}
use fast_platform_modular.Base.Int.{pos}
use fast_platform_modular.Errors.{ok}
use fast_platform_modular.Errors.Abort.{sanitize_for_log}
use fast_platform_modular.Http.{Request, json}
use fast_platform_modular.Orders.Handler.{RiderService, get}
use fast_platform_modular.Orders.Visibility.{get-json_iff}
use fast_platform_modular.Config.{Config}
use fast_platform_modular.Middleware.{
  Incoming, Action, set_header, log_panic, abort_json, answer_json, Run, Handler, Instrument, ◌▸◌,
}
use fast_platform_modular.Middleware.RequestId.{chosen_id}
use fast_platform_modular.Middleware.RequestId.Sanitize.{IsSafeId}
use fast_platform_modular.Middleware.RequestId.Generate.{IsRandom}
use fast_platform_modular.Middleware.Cors.{cors, cors_actions}
use fast_platform_modular.Middleware.Cors.Preflight.{
  IsGranted, IsPreflight, IsCorsOf, stopped, cors_lem,
}
use fast_platform_modular.Middleware.Chain.{middlewares, run_chain, other_method, unmatched}
use fast_platform_modular.Middleware.Chain.Safety.{common, Passes, chain-common, chain-panic}
use fast_platform_modular.Middleware.Chain.Unknown.{refused, unmatched-chain}
use fast_platform_modular.Tests.System.{view}
use fast_platform_modular.Tests.Drivers.{is_uuid}

-- A service that finds the order o1 of the rider r1; its state counts the calls.
abbrev service : RiderService ℕ
service = record {
  requested = λ input n. (
    n,
    ok (record {
      id = input.id;
      rider_id = input.rider_id;
      pickup_latitude = input.pickup_latitude;
      pickup_longitude = input.pickup_longitude;
      destination_latitude = input.destination_latitude;
      destination_longitude = input.destination_longitude;
    }),
  );
  get = λ id n. (1, ok (view "requested"));
}

abbrev from_rider : String → Request
from_rider rider_id = record {
  method = "GET";
  path = "/api/v1/orders/o1";
  header = λ key. if key == "rider_id" then rider_id else "";
  param = λ key. "o1";
  ops = true;
}

get-json_iff_example :
    (get is_uuid service (from_rider "r1") 0 ≡ (1, json 200 (view "requested"))) ↔ (
      (is_uuid ((from_rider "r1").header "rider_id") ≡ true)
      × (service.get ((from_rider "r1").param "orderId") 0 ≡ (1, ok (view "requested")))
      × ((view "requested").rider_id ≡ (from_rider "r1").header "rider_id"))
get-json_iff_example = get-json_iff is_uuid service (from_rider "r1") 0 1 (view "requested")

abbrev pub cfg : Config
cfg = record {
  name = "platform";
  env = "test";
  port = "8080";
  shutdown_timeout = pos 1;
  read_timeout = pos 1;
  write_timeout = pos 1;
  idle_timeout = pos 1;
  read_header_timeout = pos 1;
  cors_allowed_origins = "https://app.example" ∷ [];
  body_limit = pos 1048576;
  release_mode = true;
  trusted_proxies = [];
}

abbrev incoming : String → String → Incoming
incoming method path = record {
  method = method;
  path = path;
  header = λ key.
      if key == "Origin"
      then "https://app.example"
      else if key == "Access-Control-Request-Method"
      then "POST"
      else "";
  telemetry = none;
}

abbrev pub random : Option (List ℕ)
random = some (1 ∷ 2 ∷ 3 ∷ 4 ∷ 5 ∷ 6 ∷ 7 ∷ 8 ∷ 9 ∷ 10 ∷ 11 ∷ 12 ∷ 13 ∷ 14 ∷ 15 ∷ 255 ∷ [])

pub random-IsRandom : IsRandom random
random-IsRandom = omega arith

abbrev live : Handler
live r = record { actions = answer_json 200 "ok" ∷ []; panic = none }

abbrev panicking : Handler
panicking r = record { actions = set_header "X-Order" "o1" ∷ []; panic = some "nil map" }

-- Instrumentation that marks what it sees.
abbrev traced : Instrument
traced handler r = (set_header "traceparent" "00-1-2-01" ∷ []) ▸ handler true

-- Instrumentation that hands the request on.
abbrev pub passing : Instrument
passing handler r = handler true

or_passing : Option Instrument → Instrument
or_passing none = passing
or_passing (some instrument) = instrument

pub passing-Passes : (instrument : Instrument) → some passing ≡ some instrument → Passes instrument
unfolding or_passing
passing-Passes instrument e handler r = sym (ap (λ m. or_passing m handler r) e)

chain-common_example :
    (id : String) × IsSafeId id
    × (rest : Run) × (rest.panic ≡ none)
    × (run_chain (middlewares cfg (some passing) random) panicking (incoming "POST" "/x")
        ≡ common id ▸ rest)
chain-common_example =
    chain-common cfg (some passing) random panicking (incoming "POST" "/x") passing-Passes
      random-IsRandom

post-no-IsPreflight : ¬ IsPreflight (incoming "POST" "/x")
post-no-IsPreflight (method, asked) = ground (arith, eq_iff "POST" "OPTIONS")

chain-panic_example :
    (before : List Action) × IsCorsOf cfg.cors_allowed_origins (incoming "POST" "/x") before
    × (run_chain (middlewares cfg (some passing) random) panicking (incoming "POST" "/x")
        ≡ common (chosen_id random (incoming "POST" "/x")) ▸ before ▸ record {
          actions =
              set_header "X-Order" "o1"
              ∷ log_panic "POST" (sanitize_for_log "/x") "nil map"
              ∷ abort_json 500 "INTERNAL_ERROR" "internal server error"
              ∷ [];
          panic = none;
        })
chain-panic_example =
    chain-panic cfg (some passing) random panicking (incoming "POST" "/x") "nil map" passing-Passes
      post-no-IsPreflight refl

unmatched-chain_example :
    (before : List Action) × IsCorsOf cfg.cors_allowed_origins (incoming "POST" "/x") before
    × (run_chain
          (middlewares cfg (some passing) random)
          (unmatched other_method)
          (incoming "POST" "/x")
        ≡ common (chosen_id random (incoming "POST" "/x"))
          ▸ before
          ▸ refused other_method true (incoming "POST" "/x"))
unmatched-chain_example =
    unmatched-chain other_method cfg (some passing) random (incoming "POST" "/x") passing-Passes
      post-no-IsPreflight

cors_lem_example :
    (IsGranted ("https://app.example" ∷ []) (incoming "OPTIONS" "/x")
      → IsPreflight (incoming "OPTIONS" "/x")
      → cors ("https://app.example" ∷ []) live (incoming "OPTIONS" "/x")
        ≡ cors_actions "https://app.example" ▸ stopped)
    × (IsGranted ("https://app.example" ∷ []) (incoming "OPTIONS" "/x")
        → ¬ IsPreflight (incoming "OPTIONS" "/x")
        → cors ("https://app.example" ∷ []) live (incoming "OPTIONS" "/x")
          ≡ cors_actions "https://app.example" ▸ live (incoming "OPTIONS" "/x"))
    × (¬ IsGranted ("https://app.example" ∷ []) (incoming "OPTIONS" "/x")
        → IsPreflight (incoming "OPTIONS" "/x")
        → cors ("https://app.example" ∷ []) live (incoming "OPTIONS" "/x") ≡ stopped)
    × (¬ IsGranted ("https://app.example" ∷ []) (incoming "OPTIONS" "/x")
        → ¬ IsPreflight (incoming "OPTIONS" "/x")
        → cors ("https://app.example" ∷ []) live (incoming "OPTIONS" "/x")
          ≡ live (incoming "OPTIONS" "/x"))
cors_lem_example = cors_lem ("https://app.example" ∷ []) live (incoming "OPTIONS" "/x")
