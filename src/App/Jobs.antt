-- ===== src/App/Jobs.antt =====
-- When a job of the telemetry client counts as failed: Service.Requested and Service.Accepted behind
-- their handlers.
use mathlib.Core.Path.{subst}
use fast_platform_modular.Base.{
  String, ◌≡◌, sym, inl, inr, Bool, Option, none, some, List, ◌++◌, Bool-cases, All, All-append,
}
use fast_platform_modular.Errors.{ok, err, Result-cases}
use fast_platform_modular.Http.{Request, Answer, abort, IsExpected}
use fast_platform_modular.Orders
use fast_platform_modular.Orders.Models.{OrderRequestedInput}
use fast_platform_modular.Orders.Signals.{
  do_requested_signals, stored_line, requested_signals, request_signals, get_signals,
}
use fast_platform_modular.App.{
  World, Libraries, HttpCall, post_order, get_order, post_accept, rider_service, driver_service,
  request_order, accept_order, get_view,
}
use fast_platform_modular.App.Signals.{request_told, accept_told, call_signals}
use fast_platform_modular.Drivers
use fast_platform_modular.Drivers.Models.{AcceptedInput}
use fast_platform_modular.Drivers.Service.{OrderReader}
use fast_platform_modular.Drivers.Signals.{
  do_accepted_signals, accepted_line, accepted_signals, accept_signals,
}
use fast_platform_modular.Runtime.{Telemetry, Call, Outcome, observed}
use fast_platform_modular.Runtime.Signals.{Signal, answer_signals}
use fast_platform_modular.App.Answered.{
  IsTruthful, IsFaithful, answered, answer-IsTruthful, order_respond-answered,
  driver_respond-answered, job_error-IsExpected,
}

stored-IsTruthful :
    (P : Type 0) {S : Type 0} (call : Call) (input : OrderRequestedInput)
    (done : Outcome S Orders.Models.OrderOutput)
    → All (IsTruthful P) (do_requested_signals call input done)
unfolding do_requested_signals stored_line
stored-IsTruthful P call input done = elim (Result-cases done.result) [
  | inl (order, e) ↦ rw e (tt, (tt, (tt, tt)))
  | inr (x, e) ↦ rw e (tt, (tt, tt))
]

requested_signals-IsTruthful :
    {S : Type 0} (repository : Orders.Repository.Repository S) (tel : Option Telemetry)
    (r : Request) (call : Call) (input : OrderRequestedInput) (s : S)
    → IsFaithful tel
    → All
        (IsTruthful
          (IsExpected (answered r (Orders.Service.requested repository tel call input s).result)))
        (requested_signals repository tel call input s)
unfolding requested_signals Orders.Service.requested
requested_signals-IsTruthful repository none r call input s faithful = tt
requested_signals-IsTruthful repository (some t) r call input s faithful =
    let done = Orders.Service.do_requested repository call input s in
    let good = IsExpected (answered r (observed (some t) done.result)) in
    (
      tt,
      All-append (IsTruthful good) (do_requested_signals call input done) _
          (stored-IsTruthful good call input done)
          (job_error-IsExpected t r done.result faithful, tt),
    )

accepted-line-IsTruthful :
    (P : Type 0) {S : Type 0} (call : Call) (input : AcceptedInput)
    (done : Outcome S Drivers.Models.OrderOutput)
    → All (IsTruthful P) (do_accepted_signals call input done)
unfolding do_accepted_signals accepted_line
accepted-line-IsTruthful P call input done = elim (Result-cases done.result) [
  | inl (order, e) ↦ rw e (tt, (tt, (tt, tt)))
  | inr (x, e) ↦ rw e (tt, (tt, tt))
]

accepted_signals-IsTruthful :
    {S : Type 0} (is_uuid : String → Bool) (repository : Drivers.Repository.Repository S)
    (tel : Option Telemetry) (reader : Option (OrderReader S)) (r : Request) (call : Call)
    (input : AcceptedInput) (s : S)
    → IsFaithful tel
    → All
        (IsTruthful (
          IsExpected (
            answered r
              (Drivers.Service.accepted is_uuid repository tel reader call input s).result)))
        (accepted_signals is_uuid repository tel reader call input s)
unfolding accepted_signals Drivers.Service.accepted
accepted_signals-IsTruthful is_uuid repository none reader r call input s faithful = tt
accepted_signals-IsTruthful is_uuid repository (some t) reader r call input s faithful =
    let done = Drivers.Service.do_accepted is_uuid repository reader call input s in
    let good = IsExpected (answered r (observed (some t) done.result)) in
    (
      tt,
      All-append (IsTruthful good) (do_accepted_signals call input done) _
          (accepted-line-IsTruthful good call input done)
          (job_error-IsExpected t r done.result faithful, tt),
    )

-- What a service tells, in front of the answer.
framed-IsTruthful :
    {A : Type 0} (told : List Signal) (a b : Answer A)
    → a ≡ b
    → All (IsTruthful (IsExpected b)) told
    → All (IsTruthful (IsExpected a)) (told ++ answer_signals a)
framed-IsTruthful told a b same h =
    All-append (IsTruthful (IsExpected a)) told (answer_signals a)
      (subst (λ x. All (IsTruthful (IsExpected x)) told) (sym same) h)
      (answer-IsTruthful (IsExpected a) a)

module _ {C : Type 0} (lib : Libraries C) where
  -- The answer to the call is a result, or an error of the caller.
  abbrev pub IsCallExpected : HttpCall → World C → Type 0
  IsCallExpected (post_order at r body) w =
      IsExpected (Orders.Handler.request lib.is_uuid (rider_service lib at) at.call r body w).1
  IsCallExpected (get_order at r) w =
      IsExpected (Orders.Handler.get lib.is_uuid (rider_service lib at) r w).1
  IsCallExpected (post_accept at r) w =
      IsExpected (Drivers.Handler.accept lib.is_uuid (driver_service lib at) at.call r w).1

  -- The jobs behind a call are without an error exactly if the caller is given a result or a 4xx: what
  -- the caller did wrong is no failure of a job, and every other error is one. WorkerContext, where
  -- there is a telemetry client, gives the error of its job.
  pub call_signals-IsTruthful :
      (h : HttpCall) (w : World C)
      → IsFaithful lib.tel
      → All (IsTruthful (IsCallExpected h w)) (call_signals lib h w)
  unfolding call_signals request_signals get_signals accept_signals request_told accept_told
      Orders.Handler.request Orders.Handler.request_bound Drivers.Handler.accept request_order
      accept_order
  call_signals-IsTruthful (post_order at r (err e)) w faithful = answer-IsTruthful _ _
  call_signals-IsTruthful (post_order at r (ok input)) w faithful =
      let bound = Orders.Handler.input_of at.call r input in
      elim (Bool-cases (lib.is_uuid bound.id)) [
        | inr bad ↦ rw bad (answer-IsTruthful _ (abort r _))
        | inl good ↦ elim (Bool-cases (lib.is_uuid bound.rider_id)) [
          | inr bad ↦ rw (good, bad) (answer-IsTruthful _ (abort r _))
          | inl fine ↦
              rw (good, fine)
                (
                  tt,
                  framed-IsTruthful (request_told lib at bound w) _ _
                      (order_respond-answered r (request_order lib at bound w))
                      (requested_signals-IsTruthful _ lib.tel r at.call bound w.tables faithful),
                )
        ]
      ]
  call_signals-IsTruthful (get_order at r) w faithful =
      elim (Bool-cases (lib.is_uuid (r.header "rider_id"))) [
        | inr bad ↦ rw bad (answer-IsTruthful _ _)
        | inl good ↦ rw good (tt, answer-IsTruthful _ _)
      ]
  call_signals-IsTruthful (post_accept at r) w faithful =
      elim (Bool-cases (lib.is_uuid (r.header "driver_id"))) [
        | inr bad ↦ rw bad (answer-IsTruthful _ (abort r _))
        | inl good ↦
            let input = Drivers.Handler.input_of at.call r in
            rw good (
              tt,
              framed-IsTruthful (accept_told lib at input w) _ _
                  (driver_respond-answered r (accept_order lib at input w))
                  (accepted_signals-IsTruthful lib.is_uuid _ lib.tel (some (get_view lib at)) r
                    at.call input w faithful),
            )
      ]
