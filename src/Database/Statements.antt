-- ===== src/Database/Statements.antt =====
-- The SQL statements: requestedSQL and viewSQL of internal/orders/repository.go, acceptedSQL of
-- internal/drivers/repository.go. All parts of a WITH statement see the tables as they were when the
-- statement began, so a statement is the rows that it inserts, computed from that snapshot.
use Prim.Native.Nat.{max}
use fast_platform_modular.Base.{
  ℕ, ◌+◌, String, Bool, not, ◌&&◌, ◌>>=◌, Option, none, some, List, [], ◌∷◌, any, ◌==◌, nat_eq, leb,
  if◌then◌else◌, ◌≡◌, refl,
}
use fast_platform_modular.Orders.Models.{OrderRequestedInput, OrderView}
use fast_platform_modular.Drivers.Models.{AcceptedInput}
use fast_platform_modular.Database.{OrderRow, HistoryRow, Tables, no_rows, Schema}

-- A chain that succeeds has succeeded at its first step.
pub bind-eq-some {ℓ κ} :
    {A : Type ℓ} {B : Type κ} (m : Option A) (f : A → Option B) {b : B}
    → (m >>= f) ≡ some b
    → (a : A) × (m ≡ some a) × (f a ≡ some b)
bind-eq-some none f e = cc
bind-eq-some (some a) f e = (a, refl, e)

abbrev pub has_status : String → ℕ → List HistoryRow → Bool
has_status order_id status_id rows =
    any (λ r. r.order_id == order_id && nat_eq r.status_id status_id) rows

-- COALESCE((SELECT MAX(sequence) … WHERE order_id = …), 0)
unfoldable pub max_sequence : String → List HistoryRow → ℕ
max_sequence order_id [] = 0
max_sequence order_id (r ∷ rows) =
    let rest = max_sequence order_id rows in
    if r.order_id == order_id then max r.sequence rest else rest

newer : HistoryRow → Option HistoryRow → HistoryRow
newer r none = r
newer r (some q) = if leb q.sequence r.sequence then r else q

-- SELECT … WHERE order_id = … ORDER BY sequence DESC LIMIT 1
unfoldable pub latest : String → List HistoryRow → Option HistoryRow
unfolding newer
latest order_id [] = none
latest order_id (r ∷ rows) =
    let rest = latest order_id rows in if r.order_id == order_id then some (newer r rest) else rest

unfoldable pub find_order : String → List OrderRow → Option OrderRow
find_order id [] = none
find_order id (r ∷ rows) = let rest = find_order id rows in if r.id == id then some r else rest

-- the CTE `guard` of acceptedSQL; `order_id` is the cast of $2
unfoldable pub guard : Tables → String → Bool
guard t order_id = has_status order_id 1 t.history && not (has_status order_id 3 t.history)

-- what acceptedSQL inserts where the guard holds, from the casts of $1, $2, $3, $4 and $5
abbrev pub acceptance : Tables → AcceptedInput → String → String → String → String → String → Tables
acceptance t input id order_id driver_id history_id outbox_id = record {
  orders = [];
  history =
      record {
        id = history_id;
        order_id = order_id;
        sequence = max_sequence order_id t.history + 1;
        status_id = 3;
      }
      ∷ [];
  acceptances = record { id = id; order_id = order_id; driver_id = driver_id } ∷ [];
  outbox =
      record {
        id = outbox_id;
        aggregate_type = "order";
        aggregate_id = order_id;
        event_type = input.event_type;
        event_version = 1;
        payload = input.payload;
      }
      ∷ [];
}

module _ (schema : Schema) where
  -- requestedSQL; `now` is the default of created_at.
  unfoldable pub requested_rows : OrderRequestedInput → ℕ → Option Tables
  requested_rows input now = do
    id ← schema.uuid_text input.id
    rider_id ← schema.uuid_text input.rider_id
    history_id ← schema.uuid_text input.status_history_id
    outbox_id ← schema.uuid_text input.outbox_id
    some (record {
      orders =
          record {
            id = id;
            rider_id = rider_id;
            pickup_latitude = input.pickup_latitude;
            pickup_longitude = input.pickup_longitude;
            destination_latitude = input.destination_latitude;
            destination_longitude = input.destination_longitude;
            created_at = now;
          }
          ∷ [];
      history = record { id = history_id; order_id = id; sequence = 1; status_id = 1 } ∷ [];
      acceptances = [];
      outbox =
          record {
            id = outbox_id;
            aggregate_type = "order";
            aggregate_id = id;
            event_type = input.event_type;
            event_version = 1;
            payload = input.payload;
          }
          ∷ [];
    })

  -- acceptedSQL
  unfoldable pub accepted_rows : Tables → AcceptedInput → Option Tables
  unfolding guard
  accepted_rows t input = do
    id ← schema.uuid_text input.acceptance_id
    order_id ← schema.uuid_text input.order_id
    driver_id ← schema.uuid_text input.driver_id
    history_id ← schema.uuid_text input.status_history_id
    outbox_id ← schema.uuid_text input.outbox_id
    some (
        if guard t order_id
        then acceptance t input id order_id driver_id history_id outbox_id
        else no_rows)

  unfoldable pub view_of : OrderRow → HistoryRow → Option OrderView
  view_of o h = do
    status ← schema.status_code h.status_id
    some (record {
      id = o.id;
      rider_id = o.rider_id;
      pickup_latitude = o.pickup_latitude;
      pickup_longitude = o.pickup_longitude;
      destination_latitude = o.destination_latitude;
      destination_longitude = o.destination_longitude;
      status = status;
      created_at = o.created_at;
    })

  -- viewSQL, on the canonical text of the id: the join of the order, its latest history row and the
  -- status of that row.
  unfoldable pub view_row : Tables → String → Option OrderView
  unfolding view_of
  view_row t id = do o ← find_order id t.orders; h ← latest id t.history; view_of o h
