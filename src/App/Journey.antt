-- ===== src/App/Journey.antt =====
-- From the rider's request to the rider's look at the order, through the handlers, the service and the
-- database: internal/orders/handler.go as cmd/platform/main.go joins it.
use fast_platform_modular.Base.{
  ℕ, String, ◌≡◌, refl, ap, sym, Bool, true, none, some, Option, arith, Bool-cases, inl, inr,
}
use fast_platform_modular.Errors.{Result, ok, err}
use fast_platform_modular.Runtime.{Call}
use fast_platform_modular.Http.{Request, json, aborted}
use fast_platform_modular.Errors.Abort.{Abort}
use fast_platform_modular.Orders.Models.{OrderOutput, OrderView}
use fast_platform_modular.Orders.Creating.{Casts}
use fast_platform_modular.Orders.Reading.{new_view}
use fast_platform_modular.Orders.Requesting.{IsFilled, do_requested-created}
use fast_platform_modular.Orders.Repository.{database_get}
use fast_platform_modular.Orders.Service.{
  cache_key, view_ttl, ViewCache, unflattened, prepared, found_view, do_requested, requested,
}
use fast_platform_modular.Orders
use fast_platform_modular.Orders.Handler.{
  RequestInput, RiderService, input_of, respond, request, request_bound, get,
}
use fast_platform_modular.Orders.Visibility.{get-json_iff}
use fast_platform_modular.Database.{Tables, ◌⊕◌}
use fast_platform_modular.Database.Statements.{view_row}
use fast_platform_modular.Database.Run.{up, query_view, read}
use fast_platform_modular.Database.Stale.{NamesRequested}
use fast_platform_modular.Database.System.Reachable.{IsConsistent}
use fast_platform_modular.Database.System.Lifecycle.{IsKeyed}
use fast_platform_modular.App.Answered.{observed-ok}
use fast_platform_modular.App.{World, Libraries, Setting, get_view, request_order, rider_service}

module _ {W : Type 0} (is_uuid : String → Bool) (service : RiderService W) (call : Call)
    (r : Request) (body : RequestInput) (w : W) (out : OrderOutput) where
  respond-json :
      (p : W × Result OrderOutput)
      → (respond r 201 p).1 ≡ json 201 out
      → (p.1 ≡ ok out) × ((respond r 201 p).0 ≡ p.0)
  unfolding respond
  respond-json (u, ok x) h = ground (arith, h)
  respond-json (u, err e) h = absurd (ground (arith, h))

  refused : {A : Type 0} {e : Abort} {a : A} → ¬ (aborted e ≡ json 201 a)
  refused h = cc

  -- A request that is answered with 201 was a success of the service, and leaves what that left.
  request-json :
      (request is_uuid service call r (ok body) w).1 ≡ json 201 out
      → ((service.requested (input_of call r body) w).1 ≡ ok out)
        × ((request is_uuid service call r (ok body) w).0
            ≡ (service.requested (input_of call r body) w).0)
  unfolding request request_bound
  request-json h = elim (Bool-cases (is_uuid (input_of call r body).id)) [
    | inr bad ↦ absurd (refused (rw bad at h))
    | inl good ↦ elim (Bool-cases (is_uuid (input_of call r body).rider_id)) [
      | inr bad ↦ absurd (refused (rw (good, bad) at h))
      | inl fine ↦ rw (good, fine) (respond-json _ (rw (good, fine) at h))
    ]
  ]

-- The cache answers with the view that it loads, as it does where it holds nothing for the key.
abbrev pub Misses : {C : Type 0} → Option (ViewCache C) → ℕ → String → C → Type 0
Misses none now key held = Unit {0}
Misses (some cache) now key held =
    (v : OrderView) → (cache.get_or_set now key (ok v) view_ttl held).1 ≡ ok v

module _ {C : Type 0} (lib : Libraries C) (at later : Setting) (r look : Request)
    (body : RequestInput) (w : World C) (others others' : Tables)
    (filled : IsFilled (input_of at.call r body))
    (c : Casts lib.schema (prepared at.call (input_of at.call r body)))
    (writing : at.writing ≡ up others) (reading : later.reading ≡ up others')
    (keyed : IsKeyed lib.schema) (named : NamesRequested lib.schema)
    (consistent : IsConsistent (w.tables ⊕ others)) where
  stored : World C
  stored = (request lib.is_uuid (rider_service lib at) at.call r (ok body) w).0

  stored_view :
      (out : OrderOutput)
      → (request lib.is_uuid (rider_service lib at) at.call r (ok body) w).1 ≡ json 201 out
      → view_row lib.schema stored.tables c.id ≡ some (new_view c at.created)
  unfolding stored request_order requested
  stored_view out h =
      let input = input_of at.call r body in
      let (answered, same) =
        request-json lib.is_uuid (rider_service lib at) at.call r body w out h in
      let worked = observed-ok lib.tel _ out answered in
      rw (same, writing)
        (do_requested-created lib.schema at.call input at.created w.tables others filled c out keyed
          named consistent (rw writing at worked)).1

  loaded_view :
      (id : String) (v : OrderView) (u : World C)
      → lib.schema.uuid_text id ≡ some c.id
      → view_row lib.schema u.tables c.id ≡ some v
      → found_view (query_view lib.schema later.reading id u.tables) ≡ ok v
  unfolding query_view read found_view
  loaded_view id v u cast found = rw (reading, cast, found) refl

  get_view-loaded :
      (id : String) (v : OrderView) (u : World C)
      → lib.is_uuid id ≡ true
      → found_view (query_view lib.schema later.reading id u.tables) ≡ ok v
      → (cache : Option (ViewCache C)) → lib.cache ≡ cache
      → Misses cache later.call.now (cache_key id) u.cache
      → (get_view lib later id u).1 ≡ ok v
  unfolding get_view Orders.Service.get database_get unflattened
  get_view-loaded id v u good loads none same misses = rw (good, same, loads) refl
  get_view-loaded id v u good loads (some cache) same misses = rw (good, same, loads, misses v) refl

  -- If a request is answered with 201, then a look at its order, as the next call, is answered with 200
  -- and the order as it was sent, in the status "requested". The rider_id header of the look is the
  -- rider in the canonical spelling of PostgreSQL, and its orderId a spelling of the order's that
  -- uuid.Parse and PostgreSQL take. The cache, if there is one, answers with the view that it loads;
  -- both calls reach the database, whose tables were consistent, with the keys of `IsKeyed` and status 1
  -- named "requested"; the request is not blank and PostgreSQL takes its identifiers.
  pub get-request :
      (out : OrderOutput)
      → (request lib.is_uuid (rider_service lib at) at.call r (ok body) w).1 ≡ json 201 out
      → lib.is_uuid (look.param "orderId") ≡ true
      → lib.is_uuid (look.header "rider_id") ≡ true
      → lib.schema.uuid_text (look.param "orderId") ≡ some c.id
      → look.header "rider_id" ≡ c.rider_id
      → Misses lib.cache later.call.now
          (cache_key (look.param "orderId"))
          (request lib.is_uuid (rider_service lib at) at.call r (ok body) w).0.cache
      → (get lib.is_uuid
          (rider_service lib later)
          look
          (request lib.is_uuid (rider_service lib at) at.call r (ok body) w).0).1
        ≡ json 200 (new_view c at.created)
  unfolding stored
  get-request out h order_ok rider_ok cast same misses =
      let id = look.param "orderId" in
      let v = new_view c at.created in
      let loads = loaded_view id v stored cast (stored_view out h) in
      let viewed = get_view-loaded id v stored order_ok loads lib.cache refl misses in
      let u = (get_view lib later id stored).0 in
      ap (λ p. p.1)
        ((get-json_iff lib.is_uuid (rider_service lib later) look stored u v).1
          (rider_ok, ap (λ x. (u, x)) viewed, sym same))
