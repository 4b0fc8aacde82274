-- ===== src/Contract/Requests.antt =====
-- The rider service keeps the contract: doRequested of internal/orders/service.go over the database.
use fast_platform_modular.Base.{
  ℕ, ◌<◌, ◌≡◌, refl, false, none, arith, Bool-cases, inl, inr, eq_refl,
}
use fast_platform_modular.Runtime.{Call}
use fast_platform_modular.Orders.Models.{OrderRequestedInput}
use fast_platform_modular.Orders.Repository.{database}
use fast_platform_modular.Orders.Creating.{Casts, inserted}
use fast_platform_modular.Orders.Service.{prepared, do_requested}
use fast_platform_modular.Orders.Requesting.{
  IsFilled, ReportsDuplicates, do_requested-stored, do_requested-exists,
}
use fast_platform_modular.Database.{Tables, ◌⊕◌, Schema}
use fast_platform_modular.Database.Statements.{has_status}
use fast_platform_modular.Database.Run.{up}
use fast_platform_modular.Database.System.Counts.{order_count}
use fast_platform_modular.Database.System.Reachable.{IsConsistent}
use fast_platform_modular.Database.System.Lifecycle.{Phase, requested, accepted, phase, IsKeyed}
use fast_platform_modular.Contract.Phases.{
  has_status-accepted, has_status-requested, has_status-absent, some_order, no_order, absent-⊕,
}
use fast_platform_modular.Contract.{requesting, answer_of, Fulfils, done, already_exists}

module _ (schema : Schema) (call : Call) (input : OrderRequestedInput) (created : ℕ)
    (t others : Tables) (filled : IsFilled input) (c : Casts schema (prepared call input))
    (keyed : IsKeyed schema) (reports : ReportsDuplicates schema)
    (consistent : IsConsistent (t ⊕ others))
    (admits : order_count c.id (t ⊕ others) ≡ 0
      → schema.violation (t ⊕ others ⊕ inserted schema (prepared call input) c created)
        ≡ none) where
  abbrev found : Tables
  found = t ⊕ others

  abbrev rows : Tables
  rows = inserted schema (prepared call input) c created

  stored-requested :
      has_status c.id 1 found.history ≡ false
      → has_status c.id 3 found.history ≡ false
      → phase c.id (found ⊕ rows) ≡ requested
  stored-requested no1 no3 =
      absent-⊕ c.id found rows (has_status-absent c.id found no1 no3) (ground (arith, eq_refl c.id))
        (ground arith)

  taken :
      (p : Phase)
      → phase c.id found ≡ p
      → requesting p ≡ (p, already_exists)
      → 0 < order_count c.id found
      → Fulfils c.id
          (requesting p)
          (do_requested (database schema (up others) created) call input t)
  unfolding answer_of
  taken p e same h =
      rw (same, do_requested-exists schema call input created t others filled c keyed reports h)
        (e, refl)

  stored :
      has_status c.id 1 found.history ≡ false
      → has_status c.id 3 found.history ≡ false
      → Fulfils c.id
          (requested, done)
          (do_requested (database schema (up others) created) call input t)
  unfolding answer_of
  stored no1 no3 =
      rw
        (
          do_requested-stored schema call input created t others filled c,
          admits (no_order c.id found consistent no1),
        )
        (stored-requested no1 no3, refl)

  -- A ride request does what the contract says of the phase that the order is in when its rows are
  -- stored: an absent order is then requested, and any other stays as it is and gives
  -- ORDER_ALREADY_EXISTS. The call reaches the database, the request is not blank, PostgreSQL takes
  -- its identifiers, has the keys of `IsKeyed` and reports them as `ReportsDuplicates` says; the
  -- tables are consistent, and the schema admits the rows of an order that is not there.
  pub do_requested-Fulfils :
      Fulfils c.id
        (requesting (phase c.id (t ⊕ others)))
        (do_requested (database schema (up others) created) call input t)
  unfolding requesting
  do_requested-Fulfils = elim (Bool-cases (has_status c.id 3 found.history)) [
    | inl yes3 ↦
        let e = has_status-accepted c.id found yes3 in
        rw e (taken accepted e refl (some_order c.id found consistent (inr yes3)))
    | inr no3 ↦ elim (Bool-cases (has_status c.id 1 found.history)) [
      | inl yes1 ↦
          let e = has_status-requested c.id found yes1 no3 in
          rw e (taken requested e refl (some_order c.id found consistent (inl yes1)))
      | inr no1 ↦ rw (has_status-absent c.id found no1 no3) (stored no1 no3)
    ]
  ]
