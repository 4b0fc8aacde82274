-- ===== src/Orders/Creating.antt =====
-- What Database.Requested does on tables that the statements have made.
use fast_platform_modular.Base.{
  ℕ, ◌<◌, String, ◌≡◌, none, some, [], ◌∷◌, arith, eq_refl, Option-cases, inl, inr, count_by,
}
use fast_platform_modular.Errors.{Error, ok, err}
use fast_platform_modular.Orders.Models.{OrderRequestedInput, Order}
use fast_platform_modular.Orders.Repository.{database_requested}
use fast_platform_modular.Database.{Tables, ◌⊕◌, Schema}
use fast_platform_modular.Database.Statements.{requested_rows}
use fast_platform_modular.Database.Run.{up, finish}
use fast_platform_modular.Database.System.Counts.{order_count, order_count-⊕}
use fast_platform_modular.Database.System.Lifecycle.{IsKeyed}

-- The casts of the four identifiers succeed, to these canonical texts.
pub record Casts (schema : Schema) (input : OrderRequestedInput) : Type 0 where
  pub id : String
  pub rider_id : String
  pub history_id : String
  pub outbox_id : String
  pub order_cast : schema.uuid_text input.id ≡ some id
  pub rider_cast : schema.uuid_text input.rider_id ≡ some rider_id
  pub history_cast : schema.uuid_text input.status_history_id ≡ some history_id
  pub outbox_cast : schema.uuid_text input.outbox_id ≡ some outbox_id

module _ (schema : Schema) (input : OrderRequestedInput) (c : Casts schema input)
    (created : ℕ) where
  -- The rows that the statement inserts for these casts.
  abbrev pub inserted : Tables
  inserted = record {
    orders =
        record {
          id = c.id;
          rider_id = c.rider_id;
          pickup_latitude = input.pickup_latitude;
          pickup_longitude = input.pickup_longitude;
          destination_latitude = input.destination_latitude;
          destination_longitude = input.destination_longitude;
          created_at = created;
        }
        ∷ [];
    history = record { id = c.history_id; order_id = c.id; sequence = 1; status_id = 1 } ∷ [];
    acceptances = [];
    outbox =
        record {
          id = c.outbox_id;
          aggregate_type = "order";
          aggregate_id = c.id;
          event_type = input.event_type;
          event_version = 1;
          payload = input.payload;
        }
        ∷ [];
  }

  -- What the service answers: the order as it was sent.
  abbrev pub sent : Order
  sent = record {
    id = input.id;
    rider_id = input.rider_id;
    pickup_latitude = input.pickup_latitude;
    pickup_longitude = input.pickup_longitude;
    destination_latitude = input.destination_latitude;
    destination_longitude = input.destination_longitude;
  }

  pub requested_rows-inserted : requested_rows schema input created ≡ some inserted
  unfolding requested_rows
  requested_rows-inserted =
      ground (arith, c.order_cast, c.rider_cast, c.history_cast, c.outbox_cast)

  -- The order, its first status and its event are all written, or the answer is the violation and
  -- none of them is.
  pub requested_lem :
      (t others : Tables)
      → database_requested schema (up others) created input t
        ≡ elim (schema.violation (t ⊕ others ⊕ inserted)) [
          | none ↦ (t ⊕ others ⊕ inserted, ok sent)
          | some e ↦ (t ⊕ others, err e)
        ]
  unfolding database_requested finish
  requested_lem t others = rw requested_rows-inserted (ground arith)

  -- An id that is there already is refused, and nothing is written. The schema has the keys of
  -- `IsKeyed`.
  pub requested-duplicate :
      (t others : Tables)
      → IsKeyed schema
      → 0 < order_count c.id (t ⊕ others)
      → (e : Error) × (database_requested schema (up others) created input t ≡ (t ⊕ others, err e))
        × (schema.violation (t ⊕ others ⊕ inserted) ≡ some e)
  unfolding count_by
  requested-duplicate t others keyed h =
      elim (Option-cases (schema.violation (t ⊕ others ⊕ inserted))) [
        | inl v ↦ absurd (
            ground (
              arith,
              keyed.orders (t ⊕ others ⊕ inserted) c.id v,
              order_count-⊕ c.id (t ⊕ others) inserted,
              eq_refl c.id,
            ))
        | inr (e, v) ↦ (e, ground (arith, requested_lem t others), v)
      ]
