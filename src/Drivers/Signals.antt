-- ===== src/Drivers/Signals.antt =====
-- What internal/drivers/handler.go and internal/drivers/service.go tell the telemetry client.
use fast_platform_modular.Base.{
  ◌≡◌, refl, inl, inr, Bool-cases, Option-cases, String, Bool, Option, none, some, List, [], ◌∷◌,
  ◌++◌, if◌then◌else◌,
}
use fast_platform_modular.Errors.{Result, ok, err, error_of, Result-cases}
use fast_platform_modular.Http.{Request}
use fast_platform_modular.Runtime.{Telemetry, Call, Outcome, job_error}
use fast_platform_modular.Runtime.Signals.{
  Signal, attributes, counter, histogram, info, job, answer_signals, metrics, IsLabel, IsMeasured,
  drivers_series,
}
use fast_platform_modular.Drivers.Models.{AcceptedInput, Order, OrderOutput}
use fast_platform_modular.Drivers.Repository.{Repository}
use fast_platform_modular.Drivers.Service.{
  OrderReader, do_accepted, answer, write, write_unless_over, is_over, rejected, prepared,
}
use fast_platform_modular.Orders.Models.{OrderView}
use fast_platform_modular.Drivers.Handler.{DriverService, input_of, accept}

unfoldable pub accepted_line : AcceptedInput → Result OrderOutput → List Signal
accepted_line input (ok order) =
    info "order accepted" (("order_id", input.order_id) ∷ ("driver_id", input.driver_id) ∷ []) ∷ []
accepted_line input (err e) = []

module _ {S : Type 0} where
  -- doAccepted, where there is a client: the line at its end and the deferred function
  unfoldable pub do_accepted_signals : Call → AcceptedInput → Outcome S OrderOutput → List Signal
  unfolding accepted_line
  do_accepted_signals call input done =
      accepted_line input done.result
      ++ counter "drivers.accepted.total" done.label
        ∷ histogram "drivers.accepted.duration_seconds" call.elapsed done.label
        ∷ []

  -- Service.Accepted
  unfoldable pub accepted_signals :
      (String → Bool)
      → Repository S
      → Option Telemetry
      → Option (OrderReader S)
      → Call
      → AcceptedInput
      → S
      → List Signal
  unfolding do_accepted_signals
  accepted_signals is_uuid repository none reader call input s = []
  accepted_signals is_uuid repository (some tel) reader call input s =
      let done = do_accepted is_uuid repository reader call input s in
      attributes (("driver_id", input.driver_id) ∷ ("order_id", input.order_id) ∷ [])
      ∷ (do_accepted_signals call input done
          ++ job "drivers.accepted" (job_error (error_of done.result)) ∷ [])

module _ {W : Type 0} (is_uuid : String → Bool) (service : DriverService W) where
  -- Handler.accept; `told` is what the service tells.
  unfoldable pub accept_signals :
      (AcceptedInput → W → List Signal) → Call → Request → W → List Signal
  accept_signals told call r w =
      let input = input_of call r in
      let driver_id = r.header "driver_id" in
      let answered = answer_signals (accept is_uuid service call r w).1 in
      if is_uuid driver_id
      then attributes (("order_id", r.param "orderId") ∷ ("driver_id", driver_id) ∷ [])
        ∷ (told input w ++ answered)
      else answered

module _ {S : Type 0} (is_uuid : String → Bool) (repository : Repository S) where
  answer-IsLabel : (p : S × Result Order) → IsLabel (answer p).label
  unfolding answer
  answer-IsLabel (s, ok order) = inl refl
  answer-IsLabel (s, err e) = inr (inr (inr refl))

  write-IsLabel :
      (call : Call) (input : AcceptedInput) (s : S)
      → IsLabel (write is_uuid repository call input s).label
  unfolding write
  write-IsLabel call input s = answer-IsLabel (repository.accepted (prepared call input) s)

  write_unless_over-IsLabel :
      (call : Call) (input : AcceptedInput) (p : S × Result OrderView)
      → IsLabel (write_unless_over is_uuid repository call input p).label
  unfolding write_unless_over rejected
  write_unless_over-IsLabel call input (s, view) = elim (Bool-cases (is_over view)) [
    | inl over ↦ rw over (inr (inr (inl refl)))
    | inr still_open ↦ rw still_open (write-IsLabel call input s)
  ]

  do_accepted-IsLabel :
      (reader : Option (OrderReader S)) (call : Call) (input : AcceptedInput) (s : S)
      → IsLabel (do_accepted is_uuid repository reader call input s).label
  unfolding do_accepted rejected
  do_accepted-IsLabel reader call input s = elim (Bool-cases (is_uuid input.order_id)) [
    | inr bad ↦ rw bad (inr (inl refl))
    | inl good ↦ elim (Bool-cases (is_uuid input.driver_id)) [
      | inr bad ↦ rw (good, bad) (inr (inl refl))
      | inl fine ↦ elim (Option-cases reader) [
        | inl missing ↦ rw (good, fine, missing) (write-IsLabel call input s)
        | inr (get, there) ↦
            rw (good, fine, there) (write_unless_over-IsLabel call input (get input.order_id s))
      ]
    ]
  ]

  -- Metrics of the use case, whatever is logged.
  accepted-metrics :
      (call : Call) (input : AcceptedInput) (done : Outcome S OrderOutput) (rest : List Signal)
      → metrics (do_accepted_signals call input done ++ rest)
        ≡ drivers_series call.elapsed done.label ++ metrics rest
  unfolding do_accepted_signals accepted_line metrics
  accepted-metrics call input done rest = elim (Result-cases done.result) [
    | inl (order, e) ↦ rw e refl
    | inr (x, e) ↦ rw e refl
  ]

  pub accepted_signals-IsMeasured :
      (tel : Option Telemetry) (reader : Option (OrderReader S)) (call : Call)
      (input : AcceptedInput) (s : S)
      → IsMeasured call.elapsed
          (metrics (accepted_signals is_uuid repository tel reader call input s))
  unfolding accepted_signals metrics
  accepted_signals-IsMeasured none reader call input s = inl refl
  accepted_signals-IsMeasured (some tel) reader call input s = inr (
    (do_accepted is_uuid repository reader call input s).label,
    do_accepted-IsLabel reader call input s,
    inr (accepted-metrics call input (do_accepted is_uuid repository reader call input s) _),
  )
