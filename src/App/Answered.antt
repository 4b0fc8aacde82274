-- ===== src/App/Answered.antt =====
-- How the answer to a caller, and the error that its job reports, depend on one result: AbortError of
-- platform/platform.go and the function `work` of the two services.
use fast_platform_modular.Base.{
  ◌≤◌, ◌<◌, String, ◌≡◌, refl, ◌↔◌, inl, inr, Bool, true, Option, none, some, Bool-cases,
  Option-cases, All, arith,
}
use fast_platform_modular.Errors.{
  Error, Result, ok, err, error_of, is_client_error, as_http, map_error, or_internal,
  internal_error, wrap_error,
}
use fast_platform_modular.Errors.Codes.{is_client_error_iff}
use fast_platform_modular.Errors.Abort.{abort_error, or_internal_error}
use fast_platform_modular.Http.{Request, Answer, json, aborted, abort, IsExpected}
use fast_platform_modular.Orders
use fast_platform_modular.Drivers
use fast_platform_modular.Runtime.{Telemetry, job_error, observed, or_error}
use fast_platform_modular.Runtime.Signals.{Signal, job, answer_signals}

-- The status of AbortError is a 4xx exactly for the errors that IsClientError accepts.
is_client_error-status :
    (ops : Bool) (method path : String) (e : Error)
    → (is_client_error (some e) ≡ true) ↔ (
        (400 ≤ (abort_error ops method path (some e)).status)
        × ((abort_error ops method path (some e)).status < 500))
unfolding abort_error or_internal_error map_error or_internal internal_error wrap_error
is_client_error-status ops method path e = elim (Option-cases (as_http e)) [
  | inl plain ↦ ground (arith, plain, is_client_error_iff e)
  | inr (h, typed) ↦ (
    λ client. let (x, found, low, high) = (is_client_error_iff e).0 client in ground (arith, typed),
    λ bounds.
        (is_client_error_iff e).1
          (h, typed, ground (arith, typed, bounds), ground (arith, typed, bounds)),
  )
]

-- `P` of the error of each job.
abbrev pub IsTruthful : Type 0 → Signal → Type 0
IsTruthful P (job name e) = (e ≡ none) ↔ P
IsTruthful P _ = Unit {0}

pub answer-IsTruthful :
    {A : Type 0} (P : Type 0) (a : Answer A) → All (IsTruthful P) (answer_signals a)
unfolding answer_signals
answer-IsTruthful P (json status a) = tt
answer-IsTruthful P (aborted a) = elim (Option-cases a.log) [
  | inl e ↦ rw e tt
  | inr (line, e) ↦ rw e (tt, tt)
]

-- WorkerContext gives the error of its job.
abbrev pub IsFaithful : Option Telemetry → Type 0
IsFaithful none = Unit {0}
IsFaithful (some t) = (e : Option Error) → t.worker_context e ≡ e

-- What both handlers answer with the result of a write.
unfoldable pub answered : {A : Type 0} → Request → Result A → Answer A
answered r (ok a) = json 201 a
answered r (err e) = abort r e

pub order_respond-answered :
    {A W : Type 0} (r : Request) (p : W × Result A)
    → (Orders.Handler.respond r 201 p).1 ≡ answered r p.1
unfolding Orders.Handler.respond answered
order_respond-answered r (w, ok a) = refl
order_respond-answered r (w, err e) = refl

pub driver_respond-answered :
    {A W : Type 0} (r : Request) (p : W × Result A)
    → (Drivers.Handler.respond r p).1 ≡ answered r p.1
unfolding Drivers.Handler.respond answered
driver_respond-answered r (w, ok a) = refl
driver_respond-answered r (w, err e) = refl

-- The job of a use case is without an error exactly for a result and for an error of the caller.
pub job_error-IsExpected :
    {A : Type 0} (t : Telemetry) (r : Request) (res : Result A)
    → ((e : Option Error) → t.worker_context e ≡ e)
    → (job_error (error_of res) ≡ none) ↔ IsExpected (answered r (observed (some t) res))
unfolding observed or_error answered is_client_error
job_error-IsExpected t r (ok a) faithful = rw (faithful none) ((λ e. tt), (λ h. refl))
job_error-IsExpected t r (err e) faithful = elim (Bool-cases (is_client_error (some e))) [
  | inl client ↦
      (λ h. (is_client_error-status r.ops r.method r.path e).0 client, λ h. rw client refl)
  | inr server ↦ (
    λ h. absurd (ground (arith, server, h)),
    λ h. absurd (ground (arith, server, (is_client_error-status r.ops r.method r.path e).1 h)),
  )
]

-- The telemetry client never turns an error into a result.
pub observed-ok :
    {A : Type 0} (tel : Option Telemetry) (r : Result A) (a : A) → observed tel r ≡ ok a → r ≡ ok a
unfolding observed
observed-ok none r a h = h
observed-ok (some tel) (ok x) a h = ground (arith, h)
observed-ok (some tel) (err e) a h = ground (arith, h)
