-- ===== src/Drivers/Winning.antt =====
-- What an acceptance that succeeds has found and done: Database.Accepted of
-- internal/drivers/repository.go and Service.Accepted of internal/drivers/service.go.
use fast_platform_modular.Base.{
  String, ◌≡◌, refl, ap, true, Bool, inl, inr, some, arith, Bool-cases, Option-cases,
}
use fast_platform_modular.Errors.{Error, Result, ok, err}
use fast_platform_modular.Runtime.{Call}
use fast_platform_modular.Orders.Models.{OrderView}
use fast_platform_modular.Drivers.Models.{AcceptedInput, Order, OrderOutput}
use fast_platform_modular.Drivers.Repository.{Repository, database_accepted, accepted_result}
use fast_platform_modular.Drivers.Service.{
  OrderReader, prepared, answer, write, write_unless_over, is_over, rejected, do_accepted,
}
use fast_platform_modular.Drivers.Accepting.{Casts, accepted-ok}
use fast_platform_modular.Database.{Tables, Schema}
use fast_platform_modular.Database.Statements.{bind-eq-some, has_status, guard, accepted_rows}
use fast_platform_modular.Database.Run.{Link, up, lost_before, lost_after, execute, finish}
use fast_platform_modular.Database.System.Lifecycle.{phase, accepted}

accepted_rows-Casts :
    (schema : Schema) (t d : Tables) (input : AcceptedInput)
    → accepted_rows schema t input ≡ some d
    → (order_id : String) × Casts schema input order_id
unfolding accepted_rows
accepted_rows-Casts schema t d input e =
    let (id, q1, e1) = bind-eq-some (schema.uuid_text input.acceptance_id) _ e in
    let (order_id, q2, e2) = bind-eq-some (schema.uuid_text input.order_id) _ e1 in
    let (driver_id, q3, e3) = bind-eq-some (schema.uuid_text input.driver_id) _ e2 in
    let (history_id, q4, e4) = bind-eq-some (schema.uuid_text input.status_history_id) _ e3 in
    let (outbox_id, q5, e5) = bind-eq-some (schema.uuid_text input.outbox_id) _ e4 in
    (
      order_id,
      record {
        acceptance_id = id;
        driver_id = driver_id;
        history_id = history_id;
        outbox_id = outbox_id;
        acceptance_cast = q1;
        order_cast = q2;
        driver_cast = q3;
        history_cast = q4;
        outbox_cast = q5;
      },
    )

phase-accepted : (o : String) (t : Tables) → phase o t ≡ accepted → has_status o 3 t.history ≡ true
unfolding phase
phase-accepted o t h = ground (arith, h)

-- The order was open when the statement began, and has a row of its acceptance after it.
pub accepted-won :
    (schema : Schema) (link : Link) (input : AcceptedInput) (t : Tables) (order : Order)
    → (database_accepted schema link input t).1 ≡ ok order
    → (order_id : String) × (schema.uuid_text input.order_id ≡ some order_id)
      × (guard t order_id ≡ true)
      × (has_status order_id 3 (database_accepted schema link input t).0.history ≡ true)
unfolding database_accepted accepted_result execute finish
accepted-won schema (lost_before x) input t order e = ground (arith, e)
accepted-won schema (lost_after others x) input t order e = ground (arith, e)
accepted-won schema (up others) input t order e =
    elim (Option-cases (accepted_rows schema t input)) [
      | inl refused ↦ absurd (ground (arith, e, refused))
      | inr (d, rows) ↦
          let (order_id, c) = accepted_rows-Casts schema t d input rows in
          let result = database_accepted schema (up others) input t in
          let (open_before, id, over) =
            accepted-ok schema input order_id t others result.0 order c
              (ap (λ x. (result.0, x)) e) in
          (order_id, c.order_cast, open_before, phase-accepted order_id result.0 over)
    ]

module _ {S : Type 0} (is_uuid : String → Bool) (repository : Repository S) (call : Call)
    (input : AcceptedInput) where
  -- The use case left what the repository left, which it called on `u` and which succeeded.
  abbrev pub Wrote : S → S → Type 0
  Wrote u v =
      (order : Order) × ((repository.accepted (prepared call input) u).1 ≡ ok order)
      × (v ≡ (repository.accepted (prepared call input) u).0)

  answer-Wrote :
      (p : S × Result Order) (out : OrderOutput)
      → (answer p).result ≡ ok out
      → (order : Order) × (p.1 ≡ ok order) × ((answer p).state ≡ p.0)
  unfolding answer
  answer-Wrote (s, ok order) out e = (order, refl, refl)
  answer-Wrote (s, err x) out e = ground (arith, e)

  write-Wrote :
      (u : S) (out : OrderOutput)
      → (write is_uuid repository call input u).result ≡ ok out
      → Wrote u (write is_uuid repository call input u).state
  unfolding write
  write-Wrote u out e = answer-Wrote (repository.accepted (prepared call input) u) out e

  refused : {A : Type 0} {x : Error} {a : A} → ¬ (err x ≡ ok a)
  refused h = cc

  write_unless_over-Wrote :
      (p : S × Result OrderView) (out : OrderOutput)
      → (write_unless_over is_uuid repository call input p).result ≡ ok out
      → Wrote p.0 (write_unless_over is_uuid repository call input p).state
  unfolding write_unless_over rejected
  write_unless_over-Wrote (s, view) out e = elim (Bool-cases (is_over view)) [
    | inl over ↦ absurd (refused (rw over at e))
    | inr still_open ↦ rw still_open (write-Wrote s out (rw still_open at e))
  ]

  -- A use case that succeeds has written once, after its look at the order.
  pub do_accepted-Wrote :
      (get : OrderReader S) (s : S) (out : OrderOutput)
      → (do_accepted is_uuid repository (some get) call input s).result ≡ ok out
      → Wrote
          (get input.order_id s).0
          (do_accepted is_uuid repository (some get) call input s).state
  unfolding do_accepted rejected
  do_accepted-Wrote get s out e = elim (Bool-cases (is_uuid input.order_id)) [
    | inr bad ↦ absurd (refused (rw bad at e))
    | inl good ↦ elim (Bool-cases (is_uuid input.driver_id)) [
      | inr bad ↦ absurd (refused (rw (good, bad) at e))
      | inl fine ↦
          rw (good, fine)
            (write_unless_over-Wrote (get input.order_id s) out (rw (good, fine) at e))
    ]
  ]
