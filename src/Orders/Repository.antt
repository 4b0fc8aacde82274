-- ===== src/Orders/Repository.antt =====
-- The persistence port of internal/orders/service.go, and its implementation by the database in
-- internal/orders/repository.go.
use fast_platform_modular.Base.{ℕ, String, Option}
use fast_platform_modular.Errors.{Result, ok, err}
use fast_platform_modular.Orders.Models.{Order, OrderRequestedInput, OrderView}
use fast_platform_modular.Database.{Tables, Schema}
use fast_platform_modular.Database.Statements.{requested_rows}
use fast_platform_modular.Database.Run.{Link, execute, query_view}

-- Repository: `S` is the state that it persists.
pub record Repository (S : Type 0) : Type 0 where
  pub requested : OrderRequestedInput → S → S × Result Order
  pub get : String → S → Result (Option OrderView)

module _ (schema : Schema) (link : Link) where
  -- Database.Requested; `created` is the database's clock.
  unfoldable pub database_requested : ℕ → OrderRequestedInput → Tables → Tables × Result Order
  unfolding execute
  database_requested created input t =
      let (t', rows) = execute schema link (λ _. requested_rows schema input created) t in
      (
        t',
        elim rows [
          | err e ↦ err e
          | ok _ ↦ ok (record {
            id = input.id;
            rider_id = input.rider_id;
            pickup_latitude = input.pickup_latitude;
            pickup_longitude = input.pickup_longitude;
            destination_latitude = input.destination_latitude;
            destination_longitude = input.destination_longitude;
          })
        ],
      )

  -- Database.Get
  unfoldable pub database_get : String → Tables → Result (Option OrderView)
  unfolding query_view
  database_get id t = query_view schema link id t

  abbrev pub database : ℕ → Repository Tables
  database created = record { requested = database_requested created; get = database_get }
