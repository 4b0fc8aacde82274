-- ===== src/Orders/Service.antt =====
-- internal/orders/service.go: the rider's use cases, over the ports of the repository and of the
-- cache.
use fast_platform_modular.Base.{
  ℕ, ◌*◌, ◌^◌, String, Bool, false, not, ◌||◌, Option, none, some, concat, trim_space, ◌==◌,
  if◌then◌else◌,
}
use fast_platform_modular.Errors.{
  Error, http, http_because, pg, wrapped, canceled, opaque, Result, ok, err, HttpError, to_error,
  new_error, validation_error, has_code,
}
use fast_platform_modular.Trace.{inject_trace_context}
use fast_platform_modular.Events.{requested_json, requested_type}
use fast_platform_modular.Runtime.{Telemetry, Call, Outcome, observed}
use fast_platform_modular.Orders.Models.{Order, OrderRequestedInput, OrderOutput, OrderView}
use fast_platform_modular.Orders.Repository.{Repository}

-- A *pgconn.PgError as errors.As finds it in a chain: the SQLSTATE and the constraint.
unfoldable pub as_pg : Error → Option (String × String)
as_pg (pg code constraint message) = some (code, constraint)
as_pg (http_because s c m e) = as_pg e
as_pg (wrapped text e) = as_pg e
as_pg (http s c m) = none
as_pg canceled = none
as_pg (opaque text) = none

-- isDuplicateOrder
unfoldable pub is_duplicate_order : String × String → Bool
is_duplicate_order (code, constraint) =
    if not (code == "23505")
    then false
    else constraint == "orders_pkey" || constraint == "order_status_history_order_id_sequence_key"

-- `errors.As(err, &pgErr) && isDuplicateOrder(pgErr)`
unfoldable pub is_duplicate : Option (String × String) → Bool
unfolding is_duplicate_order
is_duplicate none = false
is_duplicate (some e) = is_duplicate_order e

abbrev or_new : String → String → String
or_new given new = if given == "" then new else given

-- the input with its identifiers, its payload and its event type
unfoldable pub prepared : Call → OrderRequestedInput → OrderRequestedInput
unfolding inject_trace_context requested_json requested_type
prepared call input =
    let outbox_id = or_new input.outbox_id call.new_outbox_id in
    record input {
      status_history_id = or_new input.status_history_id call.new_history_id;
      outbox_id = outbox_id;
      payload = inject_trace_context call.carrier (
          requested_json (record {
            event_id = outbox_id;
            event_version = 1;
            occurred_at = call.now;
            order_id = input.id;
            rider_id = input.rider_id;
            pickup_latitude = input.pickup_latitude;
            pickup_longitude = input.pickup_longitude;
            destination_latitude = input.destination_latitude;
            destination_longitude = input.destination_longitude;
          }));
      event_type = requested_type call.getenv;
    }

-- OrderOutput(order)
abbrev pub output : Order → OrderOutput
output o = record {
  id = o.id;
  rider_id = o.rider_id;
  pickup_latitude = o.pickup_latitude;
  pickup_longitude = o.pickup_longitude;
  destination_latitude = o.destination_latitude;
  destination_longitude = o.destination_longitude;
}

abbrev pub already_exists : HttpError
already_exists = new_error 409 "ORDER_ALREADY_EXISTS" "an order with this id already exists"

abbrev pub not_found : HttpError
not_found = new_error 404 "ORDER_NOT_FOUND" "order not found"

-- what doRequested makes of the repository's answer
unfoldable pub answer : {S : Type 0} → S × Result Order → Outcome S OrderOutput
answer (s, ok order) = record { state = s; label = "success"; result = ok (output order) }
answer (s, err e) =
    if is_duplicate (as_pg e)
    then record { state = s; label = "conflict"; result = err (to_error already_exists) }
    else record { state = s; label = "error"; result = err e }

module _ {S : Type 0} (repository : Repository S) where
  -- doRequested
  unfoldable pub do_requested : Call → OrderRequestedInput → S → Outcome S OrderOutput
  unfolding answer
  do_requested call input s =
      if trim_space input.id == "" || trim_space input.rider_id == ""
      then record {
        state = s;
        label = "validation_error";
        result = err (to_error (validation_error "ride" "id and rider_id are required"));
      }
      else answer (repository.requested (prepared call input) s)

  -- Service.Requested
  unfoldable pub requested :
      Option Telemetry → Call → OrderRequestedInput → S → Outcome S OrderOutput
  unfolding do_requested observed
  requested tel call input s =
      let done = do_requested call input s in record done { result = observed tel done.result }

-- viewCache: `get_or_set now key loaded ttl c` is GetOrSetContext at the time `now`, where `loaded` is
-- what the factory gives if it is called.
pub record ViewCache (C : Type 0) : Type 0 where
  pub get_or_set : ℕ → String → Result OrderView → ℕ → C → C × Result OrderView

unfoldable pub found_view : Result (Option OrderView) → Result OrderView
found_view (err e) = err e
found_view (ok none) = err (to_error not_found)
found_view (ok (some view)) = ok view

unfoldable pub unflattened : Result OrderView → Result OrderView
unfolding has_code
unflattened (ok view) = ok view
unflattened (err e) =
    if has_code (some e) "ORDER_NOT_FOUND" then err (to_error not_found) else err e

-- viewTTL, in nanoseconds
abbrev pub view_ttl : ℕ
view_ttl = 10 * 10 ^ 9

abbrev pub cache_key : String → String
cache_key id = concat "orders:view:" id

module _ {S C : Type 0} (is_uuid : String → Bool) (repository : Repository S) where
  -- Service.Get at the time `now`; uuid.Parse succeeds where `is_uuid` is true. The cache may be nil.
  unfoldable pub get : Option (ViewCache C) → ℕ → String → S → C → C × Result OrderView
  unfolding found_view unflattened
  get cache now id s c =
      if not (is_uuid id)
      then (c, err (to_error (validation_error "order_id" "must be a UUID")))
      else elim cache [
        | none ↦ (c, found_view (repository.get id s))
        | some cache ↦
            let (c', out) =
              cache.get_or_set now (cache_key id) (found_view (repository.get id s)) view_ttl c in
            (c', unflattened out)
      ]
