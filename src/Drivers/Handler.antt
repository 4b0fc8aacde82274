-- ===== src/Drivers/Handler.antt =====
-- internal/drivers/handler.go
use fast_platform_modular.Base.{String, Bool, not, if◌then◌else◌}
use fast_platform_modular.Errors.{Result, ok, err, to_error, validation_error}
use fast_platform_modular.Json.{null}
use fast_platform_modular.Http.{Request, Answer, json, abort}
use fast_platform_modular.Runtime.{Call}
use fast_platform_modular.Drivers.Models.{AcceptedInput, OrderOutput}

-- the interface of the field `service`; `W` is the state that the service works on
pub record DriverService (W : Type 0) : Type 0 where
  pub accepted : AcceptedInput → W → W × Result OrderOutput

unfoldable pub input_of : Call → Request → AcceptedInput
input_of call r = record {
  order_id = r.param "orderId";
  driver_id = r.header "driver_id";
  acceptance_id = call.new_acceptance_id;
  status_history_id = call.new_history_id;
  outbox_id = call.new_outbox_id;
  payload = null;
  event_type = "";
}

unfoldable pub respond : {A W : Type 0} → Request → W × Result A → W × Answer A
respond r (w, ok a) = (w, json 201 a)
respond r (w, err e) = (w, abort r e)

-- Handler.accept
unfoldable pub accept :
    {W : Type 0} (is_uuid : String → Bool)
    → DriverService W
    → Call
    → Request
    → W
    → W × Answer OrderOutput
accept is_uuid service call r w =
    if not (is_uuid (r.header "driver_id"))
    then (w, abort r (to_error (validation_error "driver_id" "must be a UUID")))
    else respond r (service.accepted (input_of call r) w)
