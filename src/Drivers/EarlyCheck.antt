-- ===== src/Drivers/EarlyCheck.antt =====
-- What the early check of doAccepted says about the guard of the SQL statement.
use fast_platform_modular.Base.{String, ◌≡◌, refl, ap, Bool, true, false, none, some, arith, eq_iff}
use fast_platform_modular.Errors.{Result, ok, err, to_error, new_error}
use fast_platform_modular.Runtime.{Call}
use fast_platform_modular.Orders.Models.{OrderView}
use fast_platform_modular.Drivers.Models.{AcceptedInput}
use fast_platform_modular.Drivers.Repository.{not_acceptable, database}
use fast_platform_modular.Drivers.Service.{domain_error, prepared, answer, write, is_over}
use fast_platform_modular.Drivers.Accepting.{Casts, accepted-closed}
use fast_platform_modular.Database.{Tables, ◌⊕◌, Schema}
use fast_platform_modular.Database.Statements.{guard, view_row}
use fast_platform_modular.Database.Run.{up}
use fast_platform_modular.Database.Stale.{NamesRequested, stale_view-guard}
use fast_platform_modular.Database.System.{State, initial, Reach}

-- The view `v` of an order was read in a state before `u`.
pub record WasRead (schema : Schema) (u : State) (order_id : String) (v : OrderView) : Type 0 where
  pub before : State
  pub start : Reach schema initial before
  pub later : Reach schema before u
  pub seen : view_row schema before.tables order_id ≡ some v

abbrev pub IsStale : Schema → State → String → Result OrderView → Type 0
IsStale schema u order_id (ok v) = WasRead schema u order_id v
IsStale schema u order_id (err e) = Unit {0}

domain_error-not_acceptable : domain_error (to_error not_acceptable) ≡ to_error not_acceptable
unfolding domain_error to_error new_error
domain_error-not_acceptable = refl

module _ (schema : Schema) (is_uuid : String → Bool) (call : Call) (input : AcceptedInput)
    (order_id : String) (others : Tables) (c : Casts schema (prepared call input) order_id) where
  -- What is written where the guard fails.
  pub write-closed :
      (t : Tables)
      → guard t order_id ≡ false
      → schema.violation (t ⊕ others) ≡ none
      → (write is_uuid (database schema (up others)) call input t).result
        ≡ err (to_error not_acceptable)
  unfolding write answer
  write-closed t g v =
      rw (accepted-closed schema (prepared call input) order_id t others c g v)
        (ap err domain_error-not_acceptable)

  -- A view that is over means that the guard fails.
  pub over-guard :
      (u : State) (r : Result OrderView)
      → NamesRequested schema
      → IsStale schema u order_id r
      → is_over r ≡ true
      → guard u.tables order_id ≡ false
  unfolding is_over
  over-guard u (err e) named stale over = cc
  over-guard u (ok v) named stale over =
      stale_view-guard schema stale.before u order_id v named stale.start stale.seen
        (λ p. ground (arith, eq_iff v.status "requested")) stale.later
