-- ===== src/App/Statuses.antt =====
-- The statuses with which the three routes answer: internal/orders/handler.go and
-- internal/drivers/handler.go, as cmd/platform/main.go joins them with the services and the database.
pub mod Storing
pub mod Services
pub mod Reading
use mathlib.Core.Path.{subst}
use fast_platform_modular.Base.{
  ℕ, String, ◌≡◌, ◌==◌, refl, inl, inr, Bool, some, List, [], ◌∷◌, Some, Bool-cases,
}
use fast_platform_modular.Errors
use fast_platform_modular.Errors.{
  Error, Result, ok, err, as_http, map_error, or_internal, internal_error, wrap_error, to_error,
  validation_error,
}
use fast_platform_modular.Errors.Abort.{abort_error, or_internal_error}
use fast_platform_modular.Http.{Request, Answer, json, aborted, abort}
use fast_platform_modular.Orders
use fast_platform_modular.Orders.Models.{OrderRequestedInput, OrderView}
use fast_platform_modular.Orders.Service.{ViewCache}
use fast_platform_modular.Orders.Handler.{RequestInput}
use fast_platform_modular.Drivers
use fast_platform_modular.Drivers.Models.{AcceptedInput}
use fast_platform_modular.Runtime.{Telemetry}
use fast_platform_modular.Database.{◌⊕◌}
use fast_platform_modular.App.{
  World, Libraries, Setting, HttpCall, post_order, get_order, post_accept, setting_of, get_view,
  request_order, store_acceptance, accept_order, rider_service, driver_service,
}
use fast_platform_modular.App.Answered.{IsFaithful}
use fast_platform_modular.App.Statuses.Storing.{
  Within, FailsWithin, typed-Within, IsUntyped, IsPlainLink, database_requested-FailsWithin,
  database_accepted-FailsWithin, query_view-FailsWithin,
}
use fast_platform_modular.App.Statuses.Services.{
  requesting_codes, reading_codes, accepting_codes, observed-FailsWithin, do_requested-FailsWithin,
  do_accepted-FailsWithin,
}
use fast_platform_modular.App.Statuses.Reading.{IsErrorPassing, get-FailsWithin}

-- The status of the answer is one of these.
abbrev pub IsAmong : {A : Type 0} → List ℕ → Answer A → Type 0
IsAmong codes (json status a) = Some (λ s. s ≡ status) codes
IsAmong codes (aborted a) = Some (λ s. s ≡ a.status) codes

abort-IsAmong :
    (good : ℕ) (codes : List ℕ) (r : Request) (e : Error)
    → Within codes e
    → Some (λ s. s ≡ (abort_error r.ops r.method r.path (some e)).status) (good ∷ 500 ∷ codes)
unfolding abort_error or_internal_error map_error or_internal internal_error wrap_error
    Errors.new_error
abort-IsAmong good codes r e (inl plain) = rw plain (inr (inl refl))
abort-IsAmong good codes r e (inr (h, typed, m)) =
    let same : h.status ≡ (abort_error r.ops r.method r.path (some e)).status = rw typed refl in
    subst (λ x. Some (λ s. s ≡ x) (good ∷ 500 ∷ codes)) same (inr (inr m))

order_respond-IsAmong :
    {A W : Type 0} (codes : List ℕ) (r : Request) (p : W × Result A)
    → FailsWithin codes p.1
    → IsAmong (201 ∷ 500 ∷ codes) (Orders.Handler.respond r 201 p).1
unfolding Orders.Handler.respond
order_respond-IsAmong codes r (w, ok a) h = inl refl
order_respond-IsAmong codes r (w, err e) h = abort-IsAmong 201 codes r e h

driver_respond-IsAmong :
    {A W : Type 0} (codes : List ℕ) (r : Request) (p : W × Result A)
    → FailsWithin codes p.1
    → IsAmong (201 ∷ 500 ∷ codes) (Drivers.Handler.respond r p).1
unfolding Drivers.Handler.respond
driver_respond-IsAmong codes r (w, ok a) h = inl refl
driver_respond-IsAmong codes r (w, err e) h = abort-IsAmong 201 codes r e h

shown-IsAmong :
    {W : Type 0} (r : Request) (rider_id : String) (p : W × Result OrderView)
    → FailsWithin reading_codes p.1
    → IsAmong (200 ∷ 500 ∷ reading_codes) (Orders.Handler.shown r rider_id p).1
unfolding Orders.Handler.shown Orders.Handler.owned Errors.new_error
shown-IsAmong r rider_id (w, err e) h = abort-IsAmong 200 reading_codes r e h
shown-IsAmong r rider_id (w, ok view) h = elim (Bool-cases (view.rider_id == rider_id)) [
  | inl own ↦ rw own (inl refl)
  | inr other ↦
      rw (other, IsAmong)
        (abort-IsAmong 200 reading_codes r _
          (typed-Within reading_codes Orders.Service.not_found (inr (inl refl))))
]

module _ {C : Type 0} (lib : Libraries C) where
  -- The status of the answer to the call is one of these.
  abbrev pub Answers : List ℕ → HttpCall → World C → Type 0
  Answers codes (post_order at r body) w =
      IsAmong codes (Orders.Handler.request lib.is_uuid (rider_service lib at) at.call r body w).1
  Answers codes (get_order at r) w =
      IsAmong codes (Orders.Handler.get lib.is_uuid (rider_service lib at) r w).1
  Answers codes (post_accept at r) w =
      IsAmong codes (Drivers.Handler.accept lib.is_uuid (driver_service lib at) at.call r w).1

  -- The statuses of the route.
  abbrev pub codes_of : HttpCall → List ℕ
  codes_of (post_order at r body) = 201 ∷ 500 ∷ requesting_codes
  codes_of (get_order at r) = 200 ∷ 500 ∷ reading_codes
  codes_of (post_accept at r) = 201 ∷ 500 ∷ accepting_codes

  -- What the calls meet makes no HTTPError of its own.
  pub record IsPlain (at : Setting) : Type 0 where
    pub untyped : IsUntyped lib.schema
    pub reading : IsPlainLink at.reading
    pub writing : IsPlainLink at.writing
    pub telemetry : IsFaithful lib.tel
    pub cache : (x : ViewCache C) → lib.cache ≡ some x → IsErrorPassing x

  get_view-FailsWithin :
      (at : Setting) (id : String) (w : World C)
      → IsPlain at
      → FailsWithin reading_codes (get_view lib at id w).1
  unfolding get_view Orders.Repository.database_get
  get_view-FailsWithin at id w plain =
      get-FailsWithin lib.is_uuid (Orders.Repository.database lib.schema at.reading at.created)
        lib.cache at.call.now id w.tables w.cache plain.cache
        (query_view-FailsWithin lib.schema plain.untyped reading_codes at.reading id w.tables
          plain.reading)

  request_order-FailsWithin :
      (at : Setting) (input : OrderRequestedInput) (w : World C)
      → IsPlain at
      → FailsWithin requesting_codes (request_order lib at input w).1
  unfolding request_order Orders.Service.requested
  request_order-FailsWithin at input w plain =
      let repository = Orders.Repository.database lib.schema at.writing at.created in
      observed-FailsWithin requesting_codes lib.tel _ plain.telemetry (
        do_requested-FailsWithin repository at.call input w.tables (λ i.
          database_requested-FailsWithin lib.schema plain.untyped requesting_codes at.writing
            at.created i w.tables plain.writing))

  store_acceptance-FailsWithin :
      (at : Setting) (input : AcceptedInput) (w : World C)
      → IsPlain at
      → FailsWithin accepting_codes (store_acceptance lib at input w).1
  unfolding store_acceptance
  store_acceptance-FailsWithin at input w plain =
      database_accepted-FailsWithin lib.schema plain.untyped accepting_codes at.writing input
        (w.tables ⊕ at.between) (inr (inl refl)) plain.writing

  accept_order-FailsWithin :
      (at : Setting) (input : AcceptedInput) (w : World C)
      → IsPlain at
      → FailsWithin accepting_codes (accept_order lib at input w).1
  unfolding accept_order Drivers.Service.accepted
  accept_order-FailsWithin at input w plain =
      let repository : Drivers.Repository.Repository (World C) = record {
        accepted = store_acceptance lib at;
      } in
      observed-FailsWithin accepting_codes lib.tel _ plain.telemetry (
        do_accepted-FailsWithin lib.is_uuid repository
          (λ i s. store_acceptance-FailsWithin at i s plain) (some (get_view lib at)) at.call input
          w)

  -- With errors of the database, the connection and the cache that are no HTTPError of their own, a
  -- request for an order is answered with 201, 400, 409 or 500, a read of one with 200, 400, 404 or 500,
  -- and an acceptance with 201, 400, 409 or 500.
  pub call-Answers :
      (h : HttpCall) (w : World C) → IsPlain (setting_of h) → Answers (codes_of h) h w
  unfolding Orders.Handler.request Orders.Handler.request_bound Orders.Handler.get
      Drivers.Handler.accept Errors.new_error validation_error
  call-Answers (post_order at r (err e)) w plain =
      abort-IsAmong 201 requesting_codes r _ (typed-Within requesting_codes _ (inl refl))
  call-Answers (post_order at r (ok input)) w plain =
      let bound = Orders.Handler.input_of at.call r input in
      let bad_id = λ (x : String).
        abort-IsAmong 201 requesting_codes r _
          (typed-Within requesting_codes (validation_error x "must be a UUID") (inl refl)) in
      elim (Bool-cases (lib.is_uuid bound.id)) [
        | inr bad ↦ rw (bad, IsAmong) (bad_id "id")
        | inl good ↦ elim (Bool-cases (lib.is_uuid bound.rider_id)) [
          | inr bad ↦ rw (good, bad, IsAmong) (bad_id "rider_id")
          | inl fine ↦
              rw (good, fine)
                (order_respond-IsAmong requesting_codes r (request_order lib at bound w)
                  (request_order-FailsWithin at bound w plain))
        ]
      ]
  call-Answers (get_order at r) w plain = elim (Bool-cases (lib.is_uuid (r.header "rider_id"))) [
    | inr bad ↦
        rw (bad, IsAmong)
          (abort-IsAmong 200 reading_codes r _ (typed-Within reading_codes _ (inl refl)))
    | inl good ↦ rw good (
        shown-IsAmong r _ (get_view lib at (r.param "orderId") w)
          (get_view-FailsWithin at _ w plain))
  ]
  call-Answers (post_accept at r) w plain = elim (Bool-cases (lib.is_uuid (r.header "driver_id"))) [
    | inr bad ↦
        rw (bad, IsAmong)
          (abort-IsAmong 201 accepting_codes r _ (typed-Within accepting_codes _ (inl refl)))
    | inl good ↦
        let input = Drivers.Handler.input_of at.call r in
        rw good (
          driver_respond-IsAmong accepting_codes r (accept_order lib at input w)
            (accept_order-FailsWithin at input w plain))
  ]
