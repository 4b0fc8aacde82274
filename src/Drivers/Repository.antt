-- ===== src/Drivers/Repository.antt =====
-- The persistence port of internal/drivers/service.go, and its implementation by the database in
-- internal/drivers/repository.go.
use fast_platform_modular.Base.{ℕ, nat_eq, if◌then◌else◌}
use fast_platform_modular.Errors.{Result, ok, err, HttpError, to_error, new_error}
use fast_platform_modular.Drivers.Models.{AcceptedInput, Order}
use fast_platform_modular.Database.{Tables, Schema}
use fast_platform_modular.Database.Statements.{accepted_rows}
use fast_platform_modular.Database.Run.{Link, execute}

-- the interface of the field `repository`: `S` is the state that it persists
pub record Repository (S : Type 0) : Type 0 where
  pub accepted : AcceptedInput → S → S × Result Order

abbrev pub not_acceptable : HttpError
not_acceptable = new_error 409 "ORDER_NOT_ACCEPTABLE" "order is not in the requested state"

-- what the count of rows says
unfoldable pub accepted_result : AcceptedInput → Result ℕ → Result Order
accepted_result input (err e) = err e
accepted_result input (ok rows) =
    if nat_eq rows 0 then err (to_error not_acceptable) else ok (record { id = input.order_id })

module _ (schema : Schema) (link : Link) where
  -- Database.Accepted
  unfoldable pub database_accepted : AcceptedInput → Tables → Tables × Result Order
  unfolding execute accepted_result
  database_accepted input t =
      let (t', rows) = execute schema link (λ snapshot. accepted_rows schema snapshot input) t in
      (t', accepted_result input rows)

  abbrev pub database : Repository Tables
  database = record { accepted = database_accepted }
