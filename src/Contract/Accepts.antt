-- ===== src/Contract/Accepts.antt =====
-- The driver service keeps the contract: doAccepted of internal/drivers/service.go over the database.
use fast_platform_modular.Base.{
  String, ◌≡◌, refl, Bool, true, false, none, some, arith, Bool-cases, inl, inr, eq_refl,
}
use fast_platform_modular.Errors.{Error, err}
use fast_platform_modular.Runtime.{Call}
use fast_platform_modular.Drivers.Models.{AcceptedInput, OrderOutput}
use fast_platform_modular.Drivers.Repository.{database}
use fast_platform_modular.Drivers.Accepting.{Casts, inserted, phase-inserted}
use fast_platform_modular.Drivers.Service.{prepared, do_accepted}
use fast_platform_modular.Drivers.Conflicts.{
  LostKey, acceptances, history, lost_report, lost_error, do_accepted-closed, do_accepted-raced,
  do_accepted-guarded,
}
use fast_platform_modular.Database.{Tables, ◌⊕◌, Schema}
use fast_platform_modular.Database.Statements.{has_status, guard}
use fast_platform_modular.Database.Run.{up}
use fast_platform_modular.Database.System.Counts.{acceptance_count}
use fast_platform_modular.Database.System.Reachable.{IsConsistent}
use fast_platform_modular.Database.System.Lifecycle.{
  Phase, absent, requested, accepted, phase, IsKeyed,
}
use fast_platform_modular.Contract.Phases.{
  has_status-accepted, has_status-requested, has_status-absent, no_acceptance, some_acceptance,
  has_status-⊕,
}
use fast_platform_modular.Contract.{
  accepting, answer_of, Fulfils, done, not_acceptable, lost_answer,
}

lost_error-answer :
    (A : Type 0) (key : LostKey) (message : String)
    → answer_of {A = A} (err (lost_error key message)) ≡ lost_answer key
unfolding answer_of
lost_error-answer A acceptances message = refl
lost_error-answer A history message = refl

module _ (schema : Schema) (is_uuid : String → Bool) (call : Call) (input : AcceptedInput)
    (order_id : String) (key : LostKey) (message : String) (t others : Tables)
    (c : Casts schema (prepared call input) order_id) (order_ok : is_uuid input.order_id ≡ true)
    (driver_ok : is_uuid input.driver_id ≡ true) (keyed : IsKeyed schema)
    (consistent : IsConsistent (t ⊕ others)) (allowed : schema.violation (t ⊕ others) ≡ none)
    (admits : acceptance_count order_id (t ⊕ others) ≡ 0
      → schema.violation (t ⊕ others ⊕ inserted c t) ≡ none)
    (reports : (e : Error)
      → schema.violation (t ⊕ others ⊕ inserted c t) ≡ some e
      → e ≡ lost_report key message) where
  abbrev found : Tables
  found = t ⊕ others

  still_requested : guard t order_id ≡ true → has_status order_id 1 found.history ≡ true
  unfolding guard
  still_requested g = rw (has_status-⊕ order_id 1 t others) (ground (arith, g))

  closed :
      (p : Phase)
      → phase order_id t ≡ p
      → guard t order_id ≡ false
      → accepting key p (phase order_id found) ≡ (phase order_id found, not_acceptable)
      → Fulfils order_id
          (accepting key p (phase order_id found))
          (do_accepted is_uuid (database schema (up others)) none call input t)
  unfolding answer_of
  closed p e g same =
      rw
        (
          same,
          do_accepted-closed schema is_uuid call input order_id t others c order_ok driver_ok g
              allowed,
        )
        (refl, refl)

  -- The order was requested when the statement began, and still is.
  won :
      guard t order_id ≡ true
      → has_status order_id 3 found.history ≡ false
      → Fulfils order_id
          (accepted, done)
          (do_accepted is_uuid (database schema (up others)) none call input t)
  unfolding answer_of
  won g no3 =
      rw
        (
          do_accepted-guarded schema is_uuid call input order_id t others c order_ok driver_ok g,
          admits (no_acceptance order_id found consistent no3),
        )
        (phase-inserted found (inserted c t) order_id (ground (arith, eq_refl order_id)), refl)

  -- It was requested then, and another driver was faster.
  lost :
      guard t order_id ≡ true
      → has_status order_id 3 found.history ≡ true
      → Fulfils order_id
          (accepted, lost_answer key)
          (do_accepted is_uuid (database schema (up others)) none call input t)
  lost g yes3 =
      rw
        (do_accepted-raced schema is_uuid call input order_id t others c order_ok driver_ok key
          message keyed g (some_acceptance order_id found consistent yes3) reports)
        (has_status-accepted order_id found yes3, lost_error-answer OrderOutput key message)

  open_before :
      guard t order_id ≡ true
      → Fulfils order_id
          (accepting key requested (phase order_id found))
          (do_accepted is_uuid (database schema (up others)) none call input t)
  unfolding accepting
  open_before g = elim (Bool-cases (has_status order_id 3 found.history)) [
    | inl yes3 ↦ rw (has_status-accepted order_id found yes3) (lost g yes3)
    | inr no3 ↦ rw (has_status-requested order_id found (still_requested g) no3) (won g no3)
  ]

  -- An acceptance does what the contract says of the phase in which it finds the order and of the
  -- phase that the order is in when its rows are stored: it wins, it loses to another driver, or it is
  -- refused with ORDER_NOT_ACCEPTABLE, and but for the first the order stays as the others left it. The
  -- loser gets ORDER_ALREADY_ACCEPTED only where PostgreSQL reports the key of the acceptances; where it
  -- reports the key of the history, which the same rows violate, the answer is another error. There is
  -- no reader, the identifiers are UUIDs that PostgreSQL takes, and the call reaches the database; the
  -- tables at its end are consistent and satisfy the schema, which has the keys of `IsKeyed`, admits the
  -- rows of an order that has no acceptance, and reports one of the two keys.
  pub do_accepted-Fulfils :
      Fulfils order_id
        (accepting key (phase order_id t) (phase order_id (t ⊕ others)))
        (do_accepted is_uuid (database schema (up others)) none call input t)
  unfolding accepting guard
  do_accepted-Fulfils = elim (Bool-cases (has_status order_id 3 t.history)) [
    | inl yes3 ↦
        let e = has_status-accepted order_id t yes3 in
        rw e (closed accepted e (ground (arith, yes3)) refl)
    | inr no3 ↦ elim (Bool-cases (has_status order_id 1 t.history)) [
      | inl yes1 ↦
          rw (has_status-requested order_id t yes1 no3) (open_before (ground (arith, yes1, no3)))
      | inr no1 ↦
          let e = has_status-absent order_id t no1 no3 in
          rw e (closed absent e (ground (arith, no1)) refl)
    ]
  ]
