-- ===== src/Contract.antt =====
-- What the backend promises about one order, apart from rows and statements: the phases of an order, and
-- what internal/orders/service.go and internal/drivers/service.go answer in each.
pub mod Phases
pub mod Requests
pub mod Accepts
pub mod Progress
use fast_platform_modular.Base.{String, ◌≡◌, Bool, Option, none, some, ◌==◌, if◌then◌else◌}
use fast_platform_modular.Errors.{Error, HttpError, Result, ok, err, as_http}
use fast_platform_modular.Runtime.{Outcome}
use fast_platform_modular.Database.{Tables}
use fast_platform_modular.Drivers.Conflicts.{LostKey, acceptances, history}
use fast_platform_modular.Database.System.Lifecycle.{phase, Phase, absent, requested, accepted}

pub data Answer : Type 0 where
  done already_exists not_acceptable already_accepted other_error : Answer

-- A request for an order that is in the phase `p` when the rows are stored: the phase after it, and the
-- answer.
unfoldable pub requesting : Phase → Phase × Answer
requesting absent = (requested, done)
requesting requested = (requested, already_exists)
requesting accepted = (accepted, already_exists)

-- The loser of a race is told so where PostgreSQL reports the key of the acceptances, and given another
-- error where it reports the key of the history.
abbrev pub lost_answer : LostKey → Answer
lost_answer acceptances = already_accepted
lost_answer history = other_error

-- An acceptance that finds the order in the phase `before` and stores its rows in the phase `at`. An
-- order that was requested stays so or is accepted meanwhile.
unfoldable pub accepting : LostKey → Phase → Phase → Phase × Answer
accepting key requested requested = (accepted, done)
accepting key requested accepted = (accepted, lost_answer key)
accepting key requested absent = (absent, other_error)
accepting key absent at = (at, not_acceptable)
accepting key accepted at = (at, not_acceptable)

code_answer : String → Answer
code_answer code =
    if code == "ORDER_ALREADY_EXISTS"
    then already_exists
    else if code == "ORDER_NOT_ACCEPTABLE"
    then not_acceptable
    else if code == "ORDER_ALREADY_ACCEPTED"
    then already_accepted
    else other_error

typed_answer : Option HttpError → Answer
typed_answer none = other_error
typed_answer (some e) = code_answer e.code

-- The answer as the caller sees it: the code of the typed error.
unfoldable pub answer_of {ℓ} : {A : Type ℓ} → Result A → Answer
unfolding as_http typed_answer code_answer
answer_of (ok a) = done
answer_of (err e) = typed_answer (as_http e)

-- What the use case leaves of the order `o`, and what it answers, are as expected.
abbrev pub Fulfils : {A : Type 0} → String → Phase × Answer → Outcome Tables A → Type 0
Fulfils o expected out = (phase o out.state ≡ expected.0) × (answer_of out.result ≡ expected.1)
