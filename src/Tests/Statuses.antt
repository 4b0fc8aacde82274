-- ===== src/Tests/Statuses.antt =====
-- An acceptance of a missing order, through the whole chain.
use mathlib.Core.Path.{subst}
use fast_platform_modular.Base.{
  ℕ, String, ◌≡◌, refl, Bool-cases, inl, inr, arith, some, none, List, Some, ◌==◌, eq_iff,
  if◌then◌else◌,
}
use fast_platform_modular.Errors.{pg, as_http}
use fast_platform_modular.Database.{OrderRow, AcceptanceRow}
use fast_platform_modular.Middleware.{Incoming, Action, ◌▸◌}
use fast_platform_modular.Middleware.RequestId.Sanitize.{IsSafeId}
use fast_platform_modular.Middleware.Cors.Preflight.{IsPreflight, IsCorsOf}
use fast_platform_modular.Middleware.Chain.{middlewares, run_chain}
use fast_platform_modular.Middleware.Chain.Safety.{common}
use fast_platform_modular.App.Wire.{
  Encoder, accept_route, route_codes, route_handler, IsResponse, route-responds,
}
use fast_platform_modular.App.Statuses.{IsPlain}
use fast_platform_modular.App.Statuses.Storing.{IsUntyped}
use fast_platform_modular.App.Statuses.Reading.{IsErrorPassing}
use fast_platform_modular.Tests.Schema.{schema, violation, repeats}
use fast_platform_modular.Tests.Entry.{cache, cache-IsErrorPassing}
use fast_platform_modular.Tests.Cache.{libraries}
use fast_platform_modular.Tests.Journey.{at}
use fast_platform_modular.Tests.Signals.{world}
use fast_platform_modular.Tests.Web.{cfg, passing, random, random-IsRandom, passing-Passes}

schema-IsUntyped : IsUntyped schema
unfolding violation as_http
schema-IsUntyped = record {
  cast = refl;
  violation = λ t e bad. elim (Bool-cases (repeats (λ (r : OrderRow). r.id) t.orders)) [
    | inl twice ↦
        let same : pg "23505" "orders_pkey" "duplicate key" ≡ e = ground arith in rw⁻¹ same refl
    | inr once ↦ elim (Bool-cases (repeats (λ (r : AcceptanceRow). r.order_id) t.acceptances)) [
      | inl twice ↦
          let same : pg "23505" "uq_order_acceptances_order" "duplicate key" ≡ e = ground arith in
          rw⁻¹ same refl
      | inr fine ↦ absurd (ground arith)
    ]
  ];
}

plain : IsPlain libraries at
plain = record {
  untyped = schema-IsUntyped;
  reading = tt;
  writing = tt;
  telemetry = λ e. refl;
  cache = λ x there.
      let same : cache ≡ x = ground arith in subst IsErrorPassing same cache-IsErrorPassing;
}

abbrev encoder : Encoder
encoder = record { requested = λ o. o.id; view = λ v. v.status; accepted = λ o. o.id }

abbrev asked : Incoming
asked = record {
  method = "POST";
  path = "/api/v1/orders/O1/accept";
  header = λ key. if key == "driver_id" then "d1" else "";
  telemetry = none;
}

asked-no-IsPreflight : ¬ IsPreflight asked
asked-no-IsPreflight e = ground (arith, eq_iff "POST" "OPTIONS")

route-responds_example :
    (id : String) × IsSafeId id
    × (before : List Action) × IsCorsOf cfg.cors_allowed_origins asked before
    × (status : ℕ) × Some (λ s. s ≡ status) (route_codes accept_route)
    × (response : List Action) × IsResponse status response
    × (run_chain
          (middlewares cfg (some passing) random)
          (route_handler libraries encoder accept_route at (λ key. "O1") world)
          asked
        ≡ common id ▸ before ▸ record { actions = response; panic = none })
route-responds_example =
    route-responds libraries encoder cfg (some passing) random accept_route at (λ key. "O1") world
      asked passing-Passes random-IsRandom plain asked-no-IsPreflight
