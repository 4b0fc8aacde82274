-- ===== src/Orders/Handler.antt =====
-- internal/orders/handler.go
use fast_platform_modular.Base.{ℕ, String, Bool, not, ◌==◌, if◌then◌else◌}
use fast_platform_modular.Errors.{Result, ok, err, error_text, to_error, validation_error}
use fast_platform_modular.Json.{null}
use fast_platform_modular.Http.{Request, Answer, json, abort}
use fast_platform_modular.Runtime.{Call}
use fast_platform_modular.Orders.Models.{Float64, OrderRequestedInput, OrderOutput, OrderView}
use fast_platform_modular.Orders.Service.{not_found}

-- the interface of the field `service`; `W` is the state that the service works on
pub record RiderService (W : Type 0) : Type 0 where
  pub requested : OrderRequestedInput → W → W × Result OrderOutput
  pub get : String → W → W × Result OrderView

pub record RequestInput : Type 0 where
  pub id : String
  pub rider_id : String
  pub pickup_latitude : Float64
  pub pickup_longitude : Float64
  pub destination_latitude : Float64
  pub destination_longitude : Float64

abbrev or_new : String → String → String
or_new given new = if given == "" then new else given

-- the header, else the body, else a new UUID
unfoldable rider_of : Call → Request → RequestInput → String
rider_of call r input = or_new (or_new (r.header "rider_id") input.rider_id) call.new_rider_id

-- the OrderRequestedInput of the body; the fields that are not set are empty
unfoldable pub input_of : Call → Request → RequestInput → OrderRequestedInput
unfolding rider_of
input_of call r input = record {
  id = or_new input.id call.new_order_id;
  rider_id = rider_of call r input;
  pickup_latitude = input.pickup_latitude;
  pickup_longitude = input.pickup_longitude;
  destination_latitude = input.destination_latitude;
  destination_longitude = input.destination_longitude;
  status_history_id = "";
  outbox_id = "";
  payload = null;
  event_type = "";
}

unfoldable pub respond : {A W : Type 0} → Request → ℕ → W × Result A → W × Answer A
respond r status (w, ok a) = (w, json status a)
respond r status (w, err e) = (w, abort r e)

-- What `get` answers with a view: the view itself, to the rider who requested the order.
unfoldable pub owned : Request → String → OrderView → Answer OrderView
owned r rider_id view =
    if not (view.rider_id == rider_id) then abort r (to_error not_found) else json 200 view

unfoldable pub shown : {W : Type 0} → Request → String → W × Result OrderView → W × Answer OrderView
shown r rider_id (w, err e) = (w, abort r e)
shown r rider_id (w, ok view) = (w, owned r rider_id view)

module _ {W : Type 0} (is_uuid : String → Bool) (service : RiderService W) where
  -- Handler.request, after the body was bound to `input`
  unfoldable pub request_bound : Call → Request → RequestInput → W → W × Answer OrderOutput
  request_bound call r input w =
      let bound = input_of call r input in
      if not (is_uuid bound.id)
      then (w, abort r (to_error (validation_error "id" "must be a UUID")))
      else if not (is_uuid bound.rider_id)
      then (w, abort r (to_error (validation_error "rider_id" "must be a UUID")))
      else respond r 201 (service.requested bound w)

  -- Handler.request; `body` is what ShouldBindJSON gives.
  unfoldable pub request : Call → Request → Result RequestInput → W → W × Answer OrderOutput
  request call r (err e) w = (w, abort r (to_error (validation_error "body" (error_text e))))
  request call r (ok input) w = request_bound call r input w

  -- Handler.get
  unfoldable pub get : Request → W → W × Answer OrderView
  get r w =
      let rider_id = r.header "rider_id" in
      if not (is_uuid rider_id)
      then (w, abort r (to_error (validation_error "rider_id" "must be a UUID")))
      else shown r rider_id (service.get (r.param "orderId") w)
