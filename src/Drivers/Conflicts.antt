-- ===== src/Drivers/Conflicts.antt =====
-- The conflicts of doAccepted: an order that is not in the requested state, and a lost race.
use fast_platform_modular.Base.{
  String, ◌≡◌, refl, ap, Bool, true, false, Option, none, some, arith, ◌<◌, ◌∙◌, Option-cases, inl,
  inr, [], ◌∷◌, ◌&&◌, ◌==◌, if◌then◌else◌,
}
use fast_platform_modular.Errors.{Error, http, pg, Result, ok, err, to_error, new_error}
use fast_platform_modular.Runtime.{Call, Outcome}
use fast_platform_modular.Drivers.Models.{AcceptedInput, OrderOutput, Order}
use fast_platform_modular.Drivers.Repository.{database, database_accepted}
use fast_platform_modular.Drivers.Service.{domain_error, prepared, answer, do_accepted}
use fast_platform_modular.Drivers.Accepting.{
  Casts, inserted, accepted-closed, accepted-open, accepted-ok, accepted-raced,
}
use fast_platform_modular.Database.{Tables, ◌⊕◌, Schema}
use fast_platform_modular.Database.Statements.{guard}
use fast_platform_modular.Database.Run.{up}
use fast_platform_modular.Database.System.Counts.{acceptance_count}
use fast_platform_modular.Database.System.Invariant.{IsShaped, guard-max_sequence}
use fast_platform_modular.Database.System.Lifecycle.{accepted, phase, IsKeyed}

-- The two keys that the loser of a race violates, both named in the repository: a second acceptance of
-- the order, and a second history row with its sequence number.
pub data LostKey : Type 0 where
  acceptances history : LostKey

-- What PostgreSQL reports, according to the key that it meets first.
abbrev pub lost_report : LostKey → String → Error
lost_report acceptances message = pg "23505" "uq_order_acceptances_order" message
lost_report history message = pg "23505" "order_status_history_order_id_sequence_key" message

-- What the loser is answered then.
abbrev pub lost_error : LostKey → String → Error
lost_error acceptances message = http 409 "ORDER_ALREADY_ACCEPTED" "order has already been accepted"
lost_error history message = lost_report history message

answer-ok :
    {S : Type 0} (p : S × Result Order) (out : OrderOutput)
    → (answer p).result ≡ ok out
    → (order : Order) × (p ≡ (p.0, ok order)) × (out.id ≡ order.id) × ((answer p).state ≡ p.0)
unfolding answer
answer-ok (s, ok order) out e = (order, refl, ground arith, refl)
answer-ok (s, err x) out e = ground arith

-- An error of PostgreSQL.
abbrev pub IsReport : Error → Type 0
IsReport e = (code constraint message : String) × (e ≡ pg code constraint message)

-- What becomes of the violation of a constraint.
unfoldable pub reported_error : Error → Error
reported_error (pg code constraint message) =
    if code == "23505" && constraint == "uq_order_acceptances_order"
    then http 409 "ORDER_ALREADY_ACCEPTED" "order has already been accepted"
    else pg code constraint message
reported_error e = e

module _ (schema : Schema) (is_uuid : String → Bool) (call : Call) (input : AcceptedInput)
    (order_id : String) (t others : Tables) (c : Casts schema (prepared call input) order_id)
    (order_ok : is_uuid input.order_id ≡ true) (driver_ok : is_uuid input.driver_id ≡ true) where
  -- The rows of an acceptance, field by field.
  abbrev pub won_rows : Tables
  won_rows = record {
    orders = [];
    history = record { id = c.history_id; order_id = order_id; sequence = 2; status_id = 3 } ∷ [];
    acceptances =
        record { id = c.acceptance_id; order_id = order_id; driver_id = c.driver_id } ∷ [];
    outbox =
        record {
          id = c.outbox_id;
          aggregate_type = "order";
          aggregate_id = order_id;
          event_type = (prepared call input).event_type;
          event_version = 1;
          payload = (prepared call input).payload;
        }
        ∷ [];
  }

  -- With no reader, an order that is not in the requested state gives 409 ORDER_NOT_ACCEPTABLE and
  -- nothing is written; the metric is labelled "error". The identifiers are UUIDs that PostgreSQL
  -- takes, the call reaches the database, and what other statements leave satisfies the schema.
  pub do_accepted-closed :
      guard t order_id ≡ false
      → schema.violation (t ⊕ others) ≡ none
      → do_accepted is_uuid (database schema (up others)) none call input t ≡ record {
        state = t ⊕ others;
        label = "error";
        result = err (http 409 "ORDER_NOT_ACCEPTABLE" "order is not in the requested state");
      }
  unfolding do_accepted answer domain_error to_error new_error
  do_accepted-closed g v =
      ground (arith, accepted-closed schema (prepared call input) order_id t others c g v)

  -- If another driver's acceptance commits first, after this one has passed the guard, nothing is written,
  -- and the answer depends on the key that PostgreSQL reports: 409 ORDER_ALREADY_ACCEPTED for the one
  -- of the acceptances, and the error of the database itself for the one of the history. There is no
  -- reader, the identifiers are UUIDs that PostgreSQL takes, and the call reaches the database. The
  -- schema has the keys of `IsKeyed`, and reports the violation by one of the two keys.
  pub do_accepted-raced :
      (key : LostKey) (message : String)
      → IsKeyed schema
      → guard t order_id ≡ true
      → 0 < acceptance_count order_id (t ⊕ others)
      → ((e : Error)
          → schema.violation (t ⊕ others ⊕ inserted c t) ≡ some e
          → e ≡ lost_report key message)
      → do_accepted is_uuid (database schema (up others)) none call input t
        ≡ record { state = t ⊕ others; label = "error"; result = err (lost_error key message) }
  unfolding do_accepted answer domain_error to_error new_error
  do_accepted-raced acceptances message keyed g h reported =
      let (e, refused, v) =
        accepted-raced schema (prepared call input) order_id t others c keyed g h in
      ground (arith, reported e v)
  do_accepted-raced history message keyed g h reported =
      let (e, refused, v) =
        accepted-raced schema (prepared call input) order_id t others c keyed g h in
      ground (arith, reported e v)

  do_accepted-written :
      do_accepted is_uuid (database schema (up others)) none call input t
      ≡ answer (database_accepted schema (up others) (prepared call input) t)
  unfolding do_accepted
  do_accepted-written = ground arith

  -- What an order in the requested state is answered, in the terms of the statement.
  abbrev pub settled : Tables → Option Error → Outcome Tables OrderOutput
  settled rows violation = elim violation [
    | none ↦ record {
      state = t ⊕ others ⊕ rows;
      label = "success";
      result = ok (record { id = input.order_id });
    }
    | some e ↦ record { state = t ⊕ others; label = "error"; result = err (domain_error e) }
  ]

  pub do_accepted-guarded :
      guard t order_id ≡ true
      → do_accepted is_uuid (database schema (up others)) none call input t
        ≡ settled (inserted c t) (schema.violation (t ⊕ others ⊕ inserted c t))
  unfolding answer prepared
  do_accepted-guarded g =
      let stored = accepted-open schema (prepared call input) order_id t others c g in
      elim (Option-cases (schema.violation (t ⊕ others ⊕ inserted c t))) [
        | inl v ↦ rw (do_accepted-written, stored, v) refl
        | inr (e, v) ↦ rw (do_accepted-written, stored, v) refl
      ]

  -- With no reader, an order in the requested state is accepted where the schema allows the rows: an
  -- acceptance of this driver, the second history row with status 3, and the event are stored together,
  -- the answer is the id of the order, and the metric is labelled "success". Else nothing is written,
  -- and the answer is 409 ORDER_ALREADY_ACCEPTED where the acceptances' key is reported, and else the
  -- error of the database. The identifiers are UUIDs that PostgreSQL takes, the call reaches the
  -- database, the history has the shape that the statements give it, and a violation is reported as an
  -- error of PostgreSQL.
  pub do_accepted-open :
      IsShaped t
      → ((e : Error) → schema.violation (t ⊕ others ⊕ won_rows) ≡ some e → IsReport e)
      → guard t order_id ≡ true
      → do_accepted is_uuid (database schema (up others)) none call input t
        ≡ elim (schema.violation (t ⊕ others ⊕ won_rows)) [
          | none ↦ record {
            state = t ⊕ others ⊕ won_rows;
            label = "success";
            result = ok (record { id = input.order_id });
          }
          | some e ↦ record { state = t ⊕ others; label = "error"; result = err (reported_error e) }
        ]
  unfolding reported_error domain_error to_error new_error
  do_accepted-open shaped reports g =
      let same : inserted c t ≡ won_rows = rw (guard-max_sequence t order_id shaped g) refl in
      let stored =
        do_accepted-guarded g
        ∙ ap (λ rows. settled rows (schema.violation (t ⊕ others ⊕ rows))) same in
      elim (Option-cases (schema.violation (t ⊕ others ⊕ won_rows))) [
        | inl v ↦ rw (stored, v) refl
        | inr (e, v) ↦
            let (code, constraint, message, is_pg) = reports e v in ground (arith, stored, v, is_pg)
      ]

  -- An acceptance that succeeds found the order in the requested state, answers with its id, and leaves
  -- it in the accepted phase. There is no reader, the identifiers are UUIDs that PostgreSQL takes, and
  -- the call reaches the database.
  pub do_accepted-ok :
      (out : OrderOutput)
      → (do_accepted is_uuid (database schema (up others)) none call input t).result ≡ ok out
      → (guard t order_id ≡ true)
        × (out.id ≡ input.order_id)
        × (phase order_id
              (do_accepted is_uuid (database schema (up others)) none call input t).state
            ≡ accepted)
  unfolding prepared
  do_accepted-ok out e =
      let stored = database_accepted schema (up others) (prepared call input) t in
      let (order, eq, same, state) = answer-ok stored out (rw do_accepted-written at e) in
      let (open_before, id, over) =
        accepted-ok schema (prepared call input) order_id t others stored.0 order c eq in
      (open_before, same ∙ id, rw (do_accepted-written, state) over)
