-- ===== src/Orders/Visibility.antt =====
-- Who may see an order: Handler.get of internal/orders/handler.go.
use fast_platform_modular.Base.{String, ◌≡◌, ◌≢◌, ◌↔◌, Bool, true, arith, eq_iff}
use fast_platform_modular.Errors.{http, Result, ok, err, to_error, new_error}
use fast_platform_modular.Http.{Request, Answer, json, abort}
use fast_platform_modular.Orders.Models.{OrderView}
use fast_platform_modular.Orders.Handler.{RiderService, owned, shown, get}

-- The answer for an order that does not exist.
abbrev pub missing : Request → Answer OrderView
missing r = abort r (http 404 "ORDER_NOT_FOUND" "order not found")

shown-json :
    {W : Type 0} (r : Request) (rider_id : String) (p : W × Result OrderView) (w : W)
    (v : OrderView)
    → (shown r rider_id p ≡ (w, json 200 v)) ↔ ((p ≡ (w, ok v)) × (v.rider_id ≡ rider_id))
unfolding shown owned
shown-json r rider_id (u, err e) w v = ground arith
shown-json r rider_id (u, ok x) w v =
    ground (arith, eq_iff x.rider_id rider_id, eq_iff v.rider_id rider_id)

module _ {W : Type 0} (is_uuid : String → Bool) (service : RiderService W) (r : Request)
    (w : W) where
  -- A view is answered exactly when the rider_id header is a UUID, the service has found the view, and
  -- its rider is the one of the header.
  pub get-json_iff :
      (w' : W) (v : OrderView)
      → (get is_uuid service r w ≡ (w', json 200 v)) ↔ (
          (is_uuid (r.header "rider_id") ≡ true)
          × (service.get (r.param "orderId") w ≡ (w', ok v))
          × (v.rider_id ≡ r.header "rider_id"))
  unfolding get
  get-json_iff w' v =
      ground (arith, shown-json r (r.header "rider_id") (service.get (r.param "orderId") w) w' v)

  -- The order of another rider gives the answer, and the log line, of an order that does not exist:
  -- nothing of the view is shown.
  pub get-hidden :
      (w' : W) (v : OrderView)
      → is_uuid (r.header "rider_id") ≡ true
      → service.get (r.param "orderId") w ≡ (w', ok v)
      → v.rider_id ≢ r.header "rider_id"
      → get is_uuid service r w ≡ (w', missing r)
  unfolding get shown owned to_error new_error
  get-hidden w' v h e n = ground (arith, eq_iff v.rider_id (r.header "rider_id"))
