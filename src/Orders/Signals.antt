-- ===== src/Orders/Signals.antt =====
-- What internal/orders/handler.go and internal/orders/service.go tell the telemetry client.
use fast_platform_modular.Base.{
  ◌≡◌, refl, inl, inr, Bool-cases, ◌||◌, ◌==◌, trim_space, String, Bool, Option, none, some, List,
  [], ◌∷◌, ◌++◌, ◌&&◌, if◌then◌else◌,
}
use fast_platform_modular.Errors.{Result, ok, err, error_of, Result-cases}
use fast_platform_modular.Http.{Request}
use fast_platform_modular.Runtime.{Telemetry, Call, Outcome, job_error}
use fast_platform_modular.Runtime.Signals.{
  Signal, attributes, counter, histogram, info, job, answer_signals, metrics, IsLabel, IsMeasured,
  orders_series,
}
use fast_platform_modular.Orders.Models.{Order, OrderRequestedInput, OrderOutput}
use fast_platform_modular.Orders.Repository.{Repository}
use fast_platform_modular.Orders.Service.{do_requested, answer, is_duplicate, as_pg, prepared}
use fast_platform_modular.Orders.Handler.{RiderService, RequestInput, input_of, request, get}

abbrev order_ids : OrderRequestedInput → List (String × String)
order_ids input = ("order_id", input.id) ∷ ("rider_id", input.rider_id) ∷ []

unfoldable pub stored_line : OrderRequestedInput → Result OrderOutput → List Signal
stored_line input (ok order) = info "order requested" (order_ids input) ∷ []
stored_line input (err e) = []

module _ {S : Type 0} where
  -- doRequested, where there is a client: the line at its end and the deferred function
  unfoldable pub do_requested_signals :
      Call → OrderRequestedInput → Outcome S OrderOutput → List Signal
  unfolding stored_line
  do_requested_signals call input done =
      stored_line input done.result
      ++ counter "orders.requested.total" done.label
        ∷ histogram "orders.requested.duration_seconds" call.elapsed done.label
        ∷ []

  -- Service.Requested
  unfoldable pub requested_signals :
      Repository S → Option Telemetry → Call → OrderRequestedInput → S → List Signal
  unfolding do_requested_signals
  requested_signals repository none call input s = []
  requested_signals repository (some tel) call input s =
      let done = do_requested repository call input s in
      attributes (order_ids input)
      ∷ (do_requested_signals call input done
          ++ job "orders.requested" (job_error (error_of done.result)) ∷ [])

module _ {W : Type 0} (is_uuid : String → Bool) (service : RiderService W) where
  -- Handler.request; `told` is what the service tells.
  unfoldable pub request_signals :
      (OrderRequestedInput → W → List Signal)
      → Call
      → Request
      → Result RequestInput
      → W
      → List Signal
  request_signals told call r (err e) w =
      answer_signals (request is_uuid service call r (err e) w).1
  request_signals told call r (ok input) w =
      let bound = input_of call r input in
      let answered = answer_signals (request is_uuid service call r (ok input) w).1 in
      if is_uuid bound.id && is_uuid bound.rider_id
      then attributes (order_ids bound) ∷ (told bound w ++ answered)
      else answered

  -- Handler.get
  unfoldable pub get_signals : Request → W → List Signal
  get_signals r w =
      let rider_id = r.header "rider_id" in
      let answered = answer_signals (get is_uuid service r w).1 in
      if is_uuid rider_id
      then attributes (("order_id", r.param "orderId") ∷ ("rider_id", rider_id) ∷ []) ∷ answered
      else answered

module _ {S : Type 0} where
  answer-IsLabel : (p : S × Result Order) → IsLabel (answer p).label
  unfolding answer
  answer-IsLabel (s, ok order) = inl refl
  answer-IsLabel (s, err e) = elim (Bool-cases (is_duplicate (as_pg e))) [
    | inl d ↦ rw d (inr (inr (inl refl)))
    | inr d ↦ rw d (inr (inr (inr refl)))
  ]

  do_requested-IsLabel :
      (repository : Repository S) (call : Call) (input : OrderRequestedInput) (s : S)
      → IsLabel (do_requested repository call input s).label
  unfolding do_requested
  do_requested-IsLabel repository call input s =
      elim (Bool-cases (trim_space input.id == "" || trim_space input.rider_id == "")) [
        | inl blank ↦ rw blank (inr (inl refl))
        | inr filled ↦ rw filled (answer-IsLabel (repository.requested (prepared call input) s))
      ]

  -- Metrics of the use case, whatever is logged.
  requested-metrics :
      (call : Call) (input : OrderRequestedInput) (done : Outcome S OrderOutput)
      (rest : List Signal)
      → metrics (do_requested_signals call input done ++ rest)
        ≡ orders_series call.elapsed done.label ++ metrics rest
  unfolding do_requested_signals stored_line metrics
  requested-metrics call input done rest = elim (Result-cases done.result) [
    | inl (order, e) ↦ rw e refl
    | inr (x, e) ↦ rw e refl
  ]

  pub requested_signals-IsMeasured :
      (repository : Repository S) (tel : Option Telemetry) (call : Call)
      (input : OrderRequestedInput) (s : S)
      → IsMeasured call.elapsed (metrics (requested_signals repository tel call input s))
  unfolding requested_signals metrics
  requested_signals-IsMeasured repository none call input s = inl refl
  requested_signals-IsMeasured repository (some tel) call input s = inr (
    (do_requested repository call input s).label,
    do_requested-IsLabel repository call input s,
    inl (requested-metrics call input (do_requested repository call input s) _),
  )
