-- ===== src/App/Statuses/Services.antt =====
-- Which typed errors come out of the services: internal/orders/service.go and
-- internal/drivers/service.go.
use fast_platform_modular.Base.{
  ℕ, String, refl, inl, inr, Bool, ◌||◌, ◌==◌, Bool-cases, Option-cases, Option, none, some, List,
  [], ◌∷◌, trim_space,
}
use fast_platform_modular.Errors
use fast_platform_modular.Errors.{
  Error, Result, ok, err, Result-cases, as_http, to_error, validation_error, has_code,
}
use fast_platform_modular.Runtime.{Telemetry, Call, observed, or_error}
use fast_platform_modular.Orders
use fast_platform_modular.Orders.Models.{OrderRequestedInput, OrderView}
use fast_platform_modular.Orders.Service.{
  ViewCache, view_ttl, cache_key, already_exists, not_found, found_view, unflattened, is_duplicate,
  as_pg,
}
use fast_platform_modular.Drivers
use fast_platform_modular.Drivers.Models.{AcceptedInput}
use fast_platform_modular.Drivers.Repository.{not_acceptable}
use fast_platform_modular.Drivers.Service.{
  OrderReader, already_accepted, domain_error, is_not_acceptable, is_already_accepted,
}
use fast_platform_modular.App.Answered.{IsFaithful}
use fast_platform_modular.App.Statuses.Storing.{Within, FailsWithin, typed-Within}

-- The statuses of the errors of the caller, for each use case.
abbrev pub requesting_codes : List ℕ
requesting_codes = 400 ∷ 409 ∷ []

abbrev pub reading_codes : List ℕ
reading_codes = 400 ∷ 404 ∷ []

abbrev pub accepting_codes : List ℕ
accepting_codes = 400 ∷ 409 ∷ []

-- A faithful telemetry client adds no error.
pub observed-FailsWithin :
    {A : Type 0} (codes : List ℕ) (tel : Option Telemetry) (r : Result A)
    → IsFaithful tel
    → FailsWithin codes r
    → FailsWithin codes (observed tel r)
unfolding observed or_error Errors.is_client_error
observed-FailsWithin codes none r faithful h = h
observed-FailsWithin codes (some t) (ok a) faithful h = rw (faithful none, FailsWithin) tt
observed-FailsWithin codes (some t) (err e) faithful h = h

domain_error-Within :
    (e : Error) → Within accepting_codes e → Within accepting_codes (domain_error e)
unfolding domain_error Errors.new_error
domain_error-Within e h = elim (Bool-cases (is_not_acceptable e)) [
  | inl refused ↦ rw refused (typed-Within accepting_codes not_acceptable (inr (inl refl)))
  | inr other ↦ elim (Bool-cases (is_already_accepted e)) [
    | inl raced ↦ rw (other, raced) (typed-Within accepting_codes already_accepted (inr (inl refl)))
    | inr plain ↦ rw (other, plain) h
  ]
]

module _ {S : Type 0} where
  order_answer-FailsWithin :
      (p : S × Result Orders.Models.Order)
      → FailsWithin requesting_codes p.1
      → FailsWithin requesting_codes (Orders.Service.answer p).result
  unfolding Orders.Service.answer Errors.new_error
  order_answer-FailsWithin (s, ok order) h = tt
  order_answer-FailsWithin (s, err e) h = elim (Bool-cases (is_duplicate (as_pg e))) [
    | inl d ↦ rw (d, FailsWithin) (typed-Within requesting_codes already_exists (inr (inl refl)))
    | inr d ↦ rw (d, FailsWithin) h
  ]

  pub do_requested-FailsWithin :
      (repository : Orders.Repository.Repository S) (call : Call) (input : OrderRequestedInput)
      (s : S)
      → ((i : OrderRequestedInput) → FailsWithin requesting_codes (repository.requested i s).1)
      → FailsWithin requesting_codes (Orders.Service.do_requested repository call input s).result
  unfolding Orders.Service.do_requested validation_error Errors.new_error
  do_requested-FailsWithin repository call input s h =
      elim (Bool-cases (trim_space input.id == "" || trim_space input.rider_id == "")) [
        | inl blank ↦ rw (blank, FailsWithin) (typed-Within requesting_codes _ (inl refl))
        | inr filled ↦
            rw filled (order_answer-FailsWithin _ (h (Orders.Service.prepared call input)))
      ]

  driver_answer-FailsWithin :
      (p : S × Result Drivers.Models.Order)
      → FailsWithin accepting_codes p.1
      → FailsWithin accepting_codes (Drivers.Service.answer p).result
  unfolding Drivers.Service.answer
  driver_answer-FailsWithin (s, ok order) h = tt
  driver_answer-FailsWithin (s, err e) h = domain_error-Within e h

  module _ (is_uuid : String → Bool) (repository : Drivers.Repository.Repository S)
      (h : (i : AcceptedInput) (s : S)
        → FailsWithin accepting_codes (repository.accepted i s).1) where
    write-FailsWithin :
        (call : Call) (input : AcceptedInput) (s : S)
        → FailsWithin accepting_codes (Drivers.Service.write is_uuid repository call input s).result
    unfolding Drivers.Service.write
    write-FailsWithin call input s =
        driver_answer-FailsWithin _ (h (Drivers.Service.prepared call input) s)

    write_unless_over-FailsWithin :
        (call : Call) (input : AcceptedInput) (p : S × Result OrderView)
        → FailsWithin accepting_codes
            (Drivers.Service.write_unless_over is_uuid repository call input p).result
    unfolding Drivers.Service.write_unless_over Drivers.Service.rejected Errors.new_error
    write_unless_over-FailsWithin call input (s, view) =
        elim (Bool-cases (Drivers.Service.is_over view)) [
          | inl over ↦
              rw (over, FailsWithin) (typed-Within accepting_codes not_acceptable (inr (inl refl)))
          | inr still_open ↦ rw still_open (write-FailsWithin call input s)
        ]

    pub do_accepted-FailsWithin :
        (reader : Option (OrderReader S)) (call : Call) (input : AcceptedInput) (s : S)
        → FailsWithin accepting_codes
            (Drivers.Service.do_accepted is_uuid repository reader call input s).result
    unfolding Drivers.Service.do_accepted Drivers.Service.rejected validation_error Errors.new_error
    do_accepted-FailsWithin reader call input s = elim (Bool-cases (is_uuid input.order_id)) [
      | inr bad ↦ rw (bad, FailsWithin) (typed-Within accepting_codes _ (inl refl))
      | inl good ↦ elim (Bool-cases (is_uuid input.driver_id)) [
        | inr bad ↦ rw (good, bad, FailsWithin) (typed-Within accepting_codes _ (inl refl))
        | inl fine ↦ elim (Option-cases reader) [
          | inl missing ↦ rw (good, fine, missing) (write-FailsWithin call input s)
          | inr (get, there) ↦
              rw (good, fine, there)
                (write_unless_over-FailsWithin call input (get input.order_id s))
        ]
      ]
    ]
