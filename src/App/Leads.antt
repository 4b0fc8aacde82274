-- ===== src/App/Leads.antt =====
-- Where the repositories and the reader lead, the services and the handlers lead.
use fast_platform_modular.Base.{
  ℕ, String, Bool, ◌||◌, Option, some, trim_space, ◌==◌, inl, inr, Bool-cases,
}
use fast_platform_modular.Errors.{Result, ok, err}
use fast_platform_modular.Runtime.{Call, Telemetry}
use fast_platform_modular.Http.{Request}
use fast_platform_modular.Orders
use fast_platform_modular.Orders.Models.{OrderRequestedInput, Order, OrderView}
use fast_platform_modular.Orders.Repository.{Repository}
use fast_platform_modular.Orders.Handler.{RiderService, RequestInput}
use fast_platform_modular.Drivers
use fast_platform_modular.Drivers.Models.{AcceptedInput}
use fast_platform_modular.Drivers.Handler.{DriverService}
use fast_platform_modular.Drivers.Service.{OrderReader}

-- The operation leads from every state with `P` to one with `Q`.
abbrev pub Leads : {S A B : Type 0} → (S → Type 0) → (S → Type 0) → (A → S → S × B) → Type 0
Leads {S} {A} P Q f = (a : A) (s : S) → P s → Q (f a s).0

-- `P` is true while nothing is written, and `Q` after it.
module _ {S : Type 0} (P Q : S → Type 0) (weaken : (s : S) → P s → Q s) where
  order_answer-Leads : (p : S × Result Order) → Q p.0 → Q (Orders.Service.answer p).state
  unfolding Orders.Service.answer
  order_answer-Leads (s, ok order) h = h
  order_answer-Leads (s, err e) h =
      elim (Bool-cases (Orders.Service.is_duplicate (Orders.Service.as_pg e))) [
        | inl d ↦ rw d h
        | inr d ↦ rw d h
      ]

  pub requested-Leads :
      (repository : Repository S) (tel : Option Telemetry) (call : Call)
      (input : OrderRequestedInput) (s : S)
      → Leads P Q repository.requested
      → P s
      → Q (Orders.Service.requested repository tel call input s).state
  unfolding Orders.Service.requested
  requested-Leads repository tel call input s keep h =
      elim (Bool-cases (trim_space input.id == "" || trim_space input.rider_id == "")) [
        | inl blank ↦ rw blank (weaken s h)
        | inr filled ↦
            rw filled (order_answer-Leads _ (keep (Orders.Service.prepared call input) s h))
      ]

  driver_answer-Leads :
      (p : S × Result Drivers.Models.Order) → Q p.0 → Q (Drivers.Service.answer p).state
  unfolding Drivers.Service.answer
  driver_answer-Leads (s, ok order) h = h
  driver_answer-Leads (s, err e) h = h

  write_unless_over-Leads :
      (is_uuid : String → Bool) (repository : Drivers.Repository.Repository S) (call : Call)
      (input : AcceptedInput) (p : S × Result OrderView)
      → Leads P Q repository.accepted
      → P p.0
      → Q (Drivers.Service.write_unless_over is_uuid repository call input p).state
  unfolding Drivers.Service.write_unless_over
  write_unless_over-Leads is_uuid repository call input (s, view) keep h =
      elim (Bool-cases (Drivers.Service.is_over view)) [
        | inl over ↦ rw over (weaken s h)
        | inr open_still ↦
            rw open_still (driver_answer-Leads _ (keep (Drivers.Service.prepared call input) s h))
      ]

  pub accepted-Leads :
      (is_uuid : String → Bool) (repository : Drivers.Repository.Repository S)
      (tel : Option Telemetry) (get : OrderReader S) (call : Call) (input : AcceptedInput) (s : S)
      → Leads P Q repository.accepted
      → Leads P P get
      → P s
      → Q (Drivers.Service.accepted is_uuid repository tel (some get) call input s).state
  unfolding Drivers.Service.accepted Drivers.Service.rejected
  accepted-Leads is_uuid repository tel get call input s keep keep_get h =
      elim (Bool-cases (is_uuid input.order_id)) [
        | inr bad ↦ rw bad (weaken s h)
        | inl good ↦ elim (Bool-cases (is_uuid input.driver_id)) [
          | inr bad ↦ rw (good, bad) (weaken s h)
          | inl fine ↦
              rw (good, fine)
                (write_unless_over-Leads is_uuid repository call input (get input.order_id s) keep
                  (keep_get input.order_id s h))
        ]
      ]

  order_respond-Leads :
      {A : Type 0} (r : Request) (status : ℕ) (p : S × Result A)
      → Q p.0
      → Q (Orders.Handler.respond r status p).0
  unfolding Orders.Handler.respond
  order_respond-Leads r status (s, ok a) h = h
  order_respond-Leads r status (s, err e) h = h

  pub request-Leads :
      (is_uuid : String → Bool) (service : RiderService S) (call : Call) (r : Request)
      (body : Result RequestInput) (s : S)
      → Leads P Q service.requested
      → P s
      → Q (Orders.Handler.request is_uuid service call r body s).0
  unfolding Orders.Handler.request Orders.Handler.request_bound
  request-Leads is_uuid service call r (err e) s keep h = weaken s h
  request-Leads is_uuid service call r (ok input) s keep h =
      let bound = Orders.Handler.input_of call r input in
      elim (Bool-cases (is_uuid bound.id)) [
        | inr bad ↦ rw bad (weaken s h)
        | inl good ↦ elim (Bool-cases (is_uuid bound.rider_id)) [
          | inr bad ↦ rw (good, bad) (weaken s h)
          | inl fine ↦
              rw (good, fine)
                (order_respond-Leads r 201 (service.requested bound s) (keep bound s h))
        ]
      ]

  shown-Leads :
      (r : Request) (rider_id : String) (p : S × Result OrderView)
      → Q p.0
      → Q (Orders.Handler.shown r rider_id p).0
  unfolding Orders.Handler.shown
  shown-Leads r rider_id (s, ok v) h = h
  shown-Leads r rider_id (s, err e) h = h

  pub get-Leads :
      (is_uuid : String → Bool) (service : RiderService S) (r : Request) (s : S)
      → Leads P Q service.get
      → P s
      → Q (Orders.Handler.get is_uuid service r s).0
  unfolding Orders.Handler.get
  get-Leads is_uuid service r s keep h = elim (Bool-cases (is_uuid (r.header "rider_id"))) [
    | inr bad ↦ rw bad (weaken s h)
    | inl good ↦ rw good (shown-Leads r (r.header "rider_id") _ (keep (r.param "orderId") s h))
  ]

  driver_respond-Leads :
      {A : Type 0} (r : Request) (p : S × Result A) → Q p.0 → Q (Drivers.Handler.respond r p).0
  unfolding Drivers.Handler.respond
  driver_respond-Leads r (s, ok a) h = h
  driver_respond-Leads r (s, err e) h = h

  pub accept-Leads :
      (is_uuid : String → Bool) (service : DriverService S) (call : Call) (r : Request) (s : S)
      → Leads P Q service.accepted
      → P s
      → Q (Drivers.Handler.accept is_uuid service call r s).0
  unfolding Drivers.Handler.accept
  accept-Leads is_uuid service call r s keep h =
      elim (Bool-cases (is_uuid (r.header "driver_id"))) [
        | inr bad ↦ rw bad (weaken s h)
        | inl good ↦ rw good (driver_respond-Leads r _ (keep (Drivers.Handler.input_of call r) s h))
      ]
