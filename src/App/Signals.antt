-- ===== src/App/Signals.antt =====
-- What one HTTP call tells the telemetry client, in the process that cmd/platform/main.go joins.
use fast_platform_modular.Base.{
  ℕ, ◌≡◌, ap, ◌∙◌, inl, inr, ◌&&◌, some, List, ◌++◌, append-nil, Bool-cases,
}
use fast_platform_modular.Errors.{ok, err}
use fast_platform_modular.Http.{Answer}
use fast_platform_modular.Runtime.Signals.{
  Signal, metrics, metrics-append, metrics-answer, answer_signals, IsMeasured,
}
use fast_platform_modular.Orders
use fast_platform_modular.Orders.Models.{OrderRequestedInput}
use fast_platform_modular.Orders.Handler.{RequestInput}
use fast_platform_modular.Orders.Signals.{
  requested_signals-IsMeasured, requested_signals, request_signals, get_signals,
}
use fast_platform_modular.Drivers
use fast_platform_modular.Drivers.Models.{AcceptedInput}
use fast_platform_modular.Drivers.Signals.{
  accepted_signals, accepted_signals-IsMeasured, accept_signals,
}
use fast_platform_modular.App.{
  World, Libraries, Setting, get_view, store_acceptance, rider_service, driver_service, HttpCall,
  post_order, get_order, post_accept, setting_of,
}

module _ {C : Type 0} (lib : Libraries C) where
  unfoldable pub request_told : Setting → OrderRequestedInput → World C → List Signal
  request_told at input w =
      requested_signals (Orders.Repository.database lib.schema at.writing at.created) lib.tel
        at.call input w.tables

  unfoldable pub accept_told : Setting → AcceptedInput → World C → List Signal
  accept_told at input w =
      accepted_signals lib.is_uuid (record { accepted = store_acceptance lib at }) lib.tel
        (some (get_view lib at)) at.call input w

  unfoldable pub call_signals : HttpCall → World C → List Signal
  unfolding request_told accept_told
  call_signals (post_order at r body) w =
      request_signals lib.is_uuid (rider_service lib at) (request_told at) at.call r body w
  call_signals (get_order at r) w = get_signals lib.is_uuid (rider_service lib at) r w
  call_signals (post_accept at r) w =
      accept_signals lib.is_uuid (driver_service lib at) (accept_told at) at.call r w

  -- After a span's attributes and in front of the answer, the measurements are those of the service.
  framed-IsMeasured :
      {A : Type 0} (time : ℕ) (told : List Signal) (a : Answer A)
      → IsMeasured time (metrics told)
      → IsMeasured time (metrics (told ++ answer_signals a))
  framed-IsMeasured time told a h =
      let same : metrics (told ++ answer_signals a) ≡ metrics told =
        metrics-append told (answer_signals a)
        ∙ ap (λ ms. metrics told ++ ms) (metrics-answer a)
        ∙ append-nil (metrics told) in
      rw same h

  answer-IsMeasured :
      {A : Type 0} (time : ℕ) (a : Answer A) → IsMeasured time (metrics (answer_signals a))
  answer-IsMeasured time a = inl (metrics-answer a)

  -- An HTTP call measures nothing, or it counts and times one use case once, both under the same of
  -- four labels: whatever identifiers it carries, no more series of metrics arise.
  pub call_signals-IsMeasured :
      (h : HttpCall) (w : World C)
      → IsMeasured (setting_of h).call.elapsed (metrics (call_signals h w))
  unfolding call_signals request_signals get_signals accept_signals metrics
  call_signals-IsMeasured (post_order at r (err e)) w = answer-IsMeasured at.call.elapsed _
  call_signals-IsMeasured (post_order at r (ok input)) w =
      let bound = Orders.Handler.input_of at.call r input in
      elim (Bool-cases (lib.is_uuid bound.id && lib.is_uuid bound.rider_id)) [
        | inr bad ↦ rw bad (answer-IsMeasured at.call.elapsed _)
        | inl good ↦ rw good (
            framed-IsMeasured at.call.elapsed (request_told at bound w) _ (
              requested_signals-IsMeasured
                (Orders.Repository.database lib.schema at.writing at.created) lib.tel at.call bound
                w.tables))
      ]
  call_signals-IsMeasured (get_order at r) w =
      elim (Bool-cases (lib.is_uuid (r.header "rider_id"))) [
        | inr bad ↦ rw bad (answer-IsMeasured at.call.elapsed _)
        | inl good ↦ rw good (answer-IsMeasured at.call.elapsed _)
      ]
  call_signals-IsMeasured (post_accept at r) w =
      elim (Bool-cases (lib.is_uuid (r.header "driver_id"))) [
        | inr bad ↦ rw bad (answer-IsMeasured at.call.elapsed _)
        | inl good ↦
            let input = Drivers.Handler.input_of at.call r in
            rw good (
              framed-IsMeasured at.call.elapsed (accept_told at input w) _ (
                accepted_signals-IsMeasured lib.is_uuid
                  (record { accepted = store_acceptance lib at }) lib.tel (some (get_view lib at))
                  at.call input w))
      ]
