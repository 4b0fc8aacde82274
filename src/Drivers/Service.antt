-- ===== src/Drivers/Service.antt =====
-- internal/drivers/service.go: the driver's use case, over the ports of the repository and of the
-- reader of orders.
use fast_platform_modular.Base.{
  String, Bool, false, not, ◌&&◌, Option, none, some, ◌==◌, if◌then◌else◌,
}
use fast_platform_modular.Errors.{
  Error, http, http_because, pg, Result, ok, err, HttpError, to_error, new_error, validation_error,
}
use fast_platform_modular.Trace.{inject_trace_context}
use fast_platform_modular.Events.{accepted_json, accepted_type}
use fast_platform_modular.Runtime.{Telemetry, Call, Outcome, observed}
use fast_platform_modular.Orders.Models.{OrderView}
use fast_platform_modular.Drivers.Models.{AcceptedInput, Order, OrderOutput}
use fast_platform_modular.Drivers.Repository.{Repository, not_acceptable}

-- orderReader: it may change the state, which holds the cache.
abbrev pub OrderReader : Type 0 → Type 0
OrderReader S = String → S → S × Result OrderView

-- `e, ok := err.(*platform.HTTPError)` and `e.Code == "ORDER_NOT_ACCEPTABLE"`: the error itself, not
-- its chain
unfoldable pub is_not_acceptable : Error → Bool
is_not_acceptable (http s c m) = c == "ORDER_NOT_ACCEPTABLE"
is_not_acceptable (http_because s c m e) = c == "ORDER_NOT_ACCEPTABLE"
is_not_acceptable _ = false

-- `pgErr, isPgError := err.(*pgconn.PgError)` and the two tests on it
unfoldable pub is_already_accepted : Error → Bool
is_already_accepted (pg code constraint message) =
    code == "23505" && constraint == "uq_order_acceptances_order"
is_already_accepted _ = false

abbrev pub already_accepted : HttpError
already_accepted = new_error 409 "ORDER_ALREADY_ACCEPTED" "order has already been accepted"

-- the error that doAccepted makes of the repository's
unfoldable pub domain_error : Error → Error
unfolding is_not_acceptable is_already_accepted
domain_error e =
    if is_not_acceptable e
    then to_error not_acceptable
    else if is_already_accepted e
    then to_error already_accepted
    else e

-- the input with its payload and its event type
unfoldable pub prepared : Call → AcceptedInput → AcceptedInput
unfolding inject_trace_context accepted_json accepted_type
prepared call input = record input {
  payload = inject_trace_context call.carrier (
      accepted_json (record {
        event_id = input.outbox_id;
        event_version = 1;
        occurred_at = call.now;
        order_id = input.order_id;
        driver_id = input.driver_id;
      }));
  event_type = accepted_type call.getenv;
}

unfoldable pub answer : {S : Type 0} → S × Result Order → Outcome S OrderOutput
answer (s, ok order) = record {
  state = s;
  label = "success";
  result = ok (record { id = order.id });
}
answer (s, err e) = record { state = s; label = "error"; result = err (domain_error e) }

unfoldable pub rejected : {S : Type 0} → S → String → HttpError → Outcome S OrderOutput
rejected s label e = record { state = s; label = label; result = err (to_error e) }

-- `err == nil && view.Status != "requested"`
unfoldable pub is_over : Result OrderView → Bool
is_over (err e) = false
is_over (ok view) = not (view.status == "requested")

module _ {S : Type 0} (is_uuid : String → Bool) (repository : Repository S) where
  unfoldable pub write : Call → AcceptedInput → S → Outcome S OrderOutput
  unfolding answer
  write call input s = answer (repository.accepted (prepared call input) s)

  unfoldable pub write_unless_over :
      Call → AcceptedInput → S × Result OrderView → Outcome S OrderOutput
  unfolding write rejected
  write_unless_over call input (s, view) =
      if is_over view then rejected s "conflict" not_acceptable else write call input s

  -- doAccepted; the reader may be nil.
  unfoldable pub do_accepted :
      Option (OrderReader S) → Call → AcceptedInput → S → Outcome S OrderOutput
  unfolding write_unless_over
  do_accepted reader call input s =
      if not (is_uuid input.order_id)
      then rejected s "validation_error" (validation_error "order_id" "must be a UUID")
      else if not (is_uuid input.driver_id)
      then rejected s "validation_error" (validation_error "driver_id" "must be a UUID")
      else elim reader [
        | none ↦ write call input s
        | some get ↦ write_unless_over call input (get input.order_id s)
      ]

  -- Service.Accepted
  unfoldable pub accepted :
      Option Telemetry → Option (OrderReader S) → Call → AcceptedInput → S → Outcome S OrderOutput
  unfolding do_accepted observed
  accepted tel reader call input s =
      let done = do_accepted reader call input s in
      record done { result = observed tel done.result }
