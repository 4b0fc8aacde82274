-- ===== src/Runtime/Signals.antt =====
-- What the handlers and the services tell the telemetry client: the calls of its API, in their order.
use fast_platform_modular.Base.{
  ℕ, String, Bool, true, false, Option, none, some, List, [], ◌∷◌, ◌++◌, ◌≡◌, ap, refl, ◌⊎◌,
  Bool-cases, Option-cases, inl, inr, if◌then◌else◌,
}
use fast_platform_modular.Errors.{Error}
use fast_platform_modular.Errors.Abort.{LogLine}
use fast_platform_modular.Http.{Answer, json, aborted}

-- SetAttributes on the span of the context; Counter by one and Histogram, with their name and the
-- label `status`; Info of the logger; the line of AbortError; the end of a job of WorkerContext, with
-- its name and its error.
pub data Signal : Type 0 where
  attributes : List (String × String) → Signal
  counter : String → String → Signal
  histogram : String → ℕ → String → Signal
  info : String → List (String × String) → Signal
  abort_line : LogLine → Signal
  job : String → Option Error → Signal

line_signals : Option LogLine → List Signal
line_signals none = []
line_signals (some line) = abort_line line ∷ []

-- what an answer adds: c.JSON logs nothing
unfoldable pub answer_signals : {A : Type 0} → Answer A → List Signal
unfolding line_signals
answer_signals (json status a) = []
answer_signals (aborted a) = line_signals a.log

abbrev is_metric : Signal → Bool
is_metric (counter name status) = true
is_metric (histogram name time status) = true
is_metric _ = false

-- The measurements among the signals.
unfoldable pub metrics : List Signal → List Signal
metrics [] = []
metrics (s ∷ ss) = let rest = metrics ss in if is_metric s then s ∷ rest else rest

pub metrics-append : (xs ys : List Signal) → metrics (xs ++ ys) ≡ metrics xs ++ metrics ys
unfolding metrics
metrics-append [] ys = refl
metrics-append (x ∷ xs) ys = elim (Bool-cases (is_metric x)) [
  | inl e ↦ rw e (ap (λ l. x ∷ l) (metrics-append xs ys))
  | inr e ↦ rw e (metrics-append xs ys)
]

pub metrics-answer : {A : Type 0} (a : Answer A) → metrics (answer_signals a) ≡ []
unfolding metrics answer_signals
metrics-answer (json status a) = refl
metrics-answer (aborted a) = elim (Option-cases a.log) [
  | inl e ↦ rw e refl
  | inr (line, e) ↦ rw e refl
]

-- The labels of the two metrics of a use case.
abbrev pub IsLabel : String → Type 0
IsLabel l = (l ≡ "success") ⊎ ((l ≡ "validation_error") ⊎ ((l ≡ "conflict") ⊎ (l ≡ "error")))

abbrev pub orders_series : ℕ → String → List Signal
orders_series time l =
    counter "orders.requested.total" l ∷ histogram "orders.requested.duration_seconds" time l ∷ []

abbrev pub drivers_series : ℕ → String → List Signal
drivers_series time l =
    counter "drivers.accepted.total" l ∷ histogram "drivers.accepted.duration_seconds" time l ∷ []

-- No measurement, or one of each metric of one use case, with the same label.
abbrev pub IsMeasured : ℕ → List Signal → Type 0
IsMeasured time ms =
    (ms ≡ [])
    ⊎ ((l : String) × IsLabel l × ((ms ≡ orders_series time l) ⊎ (ms ≡ drivers_series time l)))
