-- ===== src/Drivers/Accepting.antt =====
-- What Database.Accepted does on tables that the statements have made.
use fast_platform_modular.Base.{
  ◌<◌, String, ◌≡◌, refl, true, false, ◌&&◌, none, some, arith, any-append, nat_eq, ◌==◌, eq_refl,
  Bool-cases, Option-cases, inl, inr, append-nil, count_by,
}
use fast_platform_modular.Errors.{Error, ok, err, to_error}
use fast_platform_modular.Drivers.Models.{AcceptedInput, Order}
use fast_platform_modular.Drivers.Repository.{not_acceptable, database_accepted}
use fast_platform_modular.Database.{HistoryRow, Tables, no_rows, ◌⊕◌, Schema}
use fast_platform_modular.Database.Statements.{has_status, guard, accepted_rows, acceptance}
use fast_platform_modular.Database.Run.{up, finish}
use fast_platform_modular.Database.System.Counts.{acceptance_count, acceptance_count-⊕}
use fast_platform_modular.Database.System.Lifecycle.{accepted, phase, IsKeyed}

-- The casts of the five identifiers succeed; `order_id` is the canonical text of the order's.
pub record Casts (schema : Schema) (input : AcceptedInput) (order_id : String) : Type 0 where
  pub acceptance_id : String
  pub driver_id : String
  pub history_id : String
  pub outbox_id : String
  pub acceptance_cast : schema.uuid_text input.acceptance_id ≡ some acceptance_id
  pub order_cast : schema.uuid_text input.order_id ≡ some order_id
  pub driver_cast : schema.uuid_text input.driver_id ≡ some driver_id
  pub history_cast : schema.uuid_text input.status_history_id ≡ some history_id
  pub outbox_cast : schema.uuid_text input.outbox_id ≡ some outbox_id

module _ (schema : Schema) (input : AcceptedInput) (order_id : String)
    (c : Casts schema input order_id) where
  pub accepted_rows-closed :
      (t : Tables) → guard t order_id ≡ false → accepted_rows schema t input ≡ some no_rows
  unfolding accepted_rows
  accepted_rows-closed t h = ground arith

  pub accepted_rows-open :
      (t : Tables)
      → guard t order_id ≡ true
      → accepted_rows schema t input
        ≡ some (acceptance t input c.acceptance_id order_id c.driver_id c.history_id c.outbox_id)
  unfolding accepted_rows
  accepted_rows-open t h =
      ground (arith, c.acceptance_cast, c.order_cast, c.driver_cast, c.history_cast, c.outbox_cast)

⊕-no_rows : (t : Tables) → t ⊕ no_rows ≡ t
⊕-no_rows t = simp append-nil

finish-no_rows :
    (schema : Schema) (t : Tables)
    → schema.violation t ≡ none
    → finish schema t (some no_rows) ≡ (t, ok 0)
unfolding finish
finish-no_rows schema t v = ground (arith, ⊕-no_rows t)

-- An order that is not in the requested state is not accepted: the answer is ORDER_NOT_ACCEPTABLE, and
-- the statement writes nothing. Other statements may commit meanwhile; what they leave satisfies the
-- schema.
pub accepted-closed :
    (schema : Schema) (input : AcceptedInput) (order_id : String) (t others : Tables)
    → Casts schema input order_id
    → guard t order_id ≡ false
    → schema.violation (t ⊕ others) ≡ none
    → database_accepted schema (up others) input t ≡ (t ⊕ others, err (to_error not_acceptable))
unfolding database_accepted
accepted-closed schema input order_id t others c h v =
    rw (accepted_rows-closed schema input order_id c t h, finish-no_rows schema (t ⊕ others) v) refl

-- What the statement inserts for these casts where the guard holds.
abbrev pub inserted :
    {schema : Schema} {input : AcceptedInput} {order_id : String}
    → Casts schema input order_id
    → Tables
    → Tables
inserted {input} {order_id} c t =
    acceptance t input c.acceptance_id order_id c.driver_id c.history_id c.outbox_id

-- An order in the requested state is accepted if the schema allows the rows, and else the answer is
-- the violation and the statement writes nothing.
pub accepted-open :
    (schema : Schema) (input : AcceptedInput) (order_id : String) (t others : Tables)
    → (c : Casts schema input order_id) → guard t order_id ≡ true
    → database_accepted schema (up others) input t
      ≡ elim (schema.violation (t ⊕ others ⊕ inserted c t)) [
        | none ↦ (t ⊕ others ⊕ inserted c t, ok (record { id = input.order_id }))
        | some e ↦ (t ⊕ others, err e)
      ]
unfolding database_accepted finish
accepted-open schema input order_id t others c h =
    rw (accepted_rows-open schema input order_id c t h) (ground arith)

accepted-guarded :
    (schema : Schema) (input : AcceptedInput) (order_id : String) (t others u : Tables)
    (order : Order)
    → Casts schema input order_id
    → database_accepted schema (up others) input t ≡ (u, ok order)
    → guard t order_id ≡ true
unfolding database_accepted finish
accepted-guarded schema input order_id t others u order c e = elim (Bool-cases (guard t order_id)) [
  | inl g ↦ g
  | inr g ↦ ground (arith, accepted_rows-closed schema input order_id c t g)
]

pub phase-inserted :
    (t u : Tables) (o : String) → has_status o 3 u.history ≡ true → phase o (t ⊕ u) ≡ accepted
unfolding phase
phase-inserted t u o h =
    rw
      (any-append (λ (r : HistoryRow). r.order_id == o && nat_eq r.status_id 3) t.history u.history)
      (ground arith)

-- An acceptance that succeeds found the order in the requested state, answers with the order's id, and
-- leaves the order in the accepted phase.
pub accepted-ok :
    (schema : Schema) (input : AcceptedInput) (order_id : String) (t others u : Tables)
    (order : Order)
    → Casts schema input order_id
    → database_accepted schema (up others) input t ≡ (u, ok order)
    → (guard t order_id ≡ true) × (order.id ≡ input.order_id) × (phase order_id u ≡ accepted)
accepted-ok schema input order_id t others u order c e =
    let g = accepted-guarded schema input order_id t others u order c e in
    let marked : has_status order_id 3 (inserted c t).history ≡ true =
      ground (arith, eq_refl order_id) in
    ground (
      arith,
      accepted-open schema input order_id t others c g,
      phase-inserted (t ⊕ others) (inserted c t) order_id marked,
    )

-- If another statement has accepted the order after this one looked, then this one writes nothing and
-- fails. The schema has the keys of `IsKeyed`.
pub accepted-raced :
    (schema : Schema) (input : AcceptedInput) (order_id : String) (t others : Tables)
    → (c : Casts schema input order_id) → IsKeyed schema
    → guard t order_id ≡ true
    → 0 < acceptance_count order_id (t ⊕ others)
    → (e : Error) × (database_accepted schema (up others) input t ≡ (t ⊕ others, err e))
      × (schema.violation (t ⊕ others ⊕ inserted c t) ≡ some e)
unfolding count_by
accepted-raced schema input order_id t others c keyed g h =
    elim (Option-cases (schema.violation (t ⊕ others ⊕ inserted c t))) [
      | inl v ↦ absurd (
          ground (
            arith,
            keyed.acceptances (t ⊕ others ⊕ inserted c t) order_id v,
            acceptance_count-⊕ order_id (t ⊕ others) (inserted c t),
            eq_refl order_id,
          ))
      | inr (e, v) ↦ (e, ground (arith, accepted-open schema input order_id t others c g), v)
    ]
