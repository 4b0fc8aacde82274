-- ===== src/Orders/Reading.antt =====
-- What is read after Database.Requested has written an order.
use fast_platform_modular.Base.{
  ℕ, String, ◌≡◌, refl, Bool, true, false, ◌&&◌, some, List, [], ◌∷◌, ◌++◌, arith, any-append,
  nat_eq, ◌==◌, eq_refl, Option-cases, inl, inr, count_by, any_iff-count_by, any, All-append,
}
use fast_platform_modular.Errors.{ok}
use fast_platform_modular.Orders.Models.{OrderRequestedInput, Order, OrderView}
use fast_platform_modular.Orders.Repository.{database_requested}
use fast_platform_modular.Database.{OrderRow, HistoryRow, Tables, ◌⊕◌, Schema}
use fast_platform_modular.Database.Statements.{has_status, find_order, latest, view_row}
use fast_platform_modular.Database.Run.{up}
use fast_platform_modular.Database.Stale.{NamesRequested}
use fast_platform_modular.Database.System.Counts.{order_count, order_count-⊕}
use fast_platform_modular.Database.System.Invariant.{HasShape}
use fast_platform_modular.Database.System.Reachable.{IsConsistent}
use fast_platform_modular.Database.System.Latest.{latest_status}
use fast_platform_modular.Database.System.Lifecycle.{IsKeyed}
use fast_platform_modular.Orders.Creating.{Casts, inserted, sent, requested_lem}

find_order-append :
    (id : String) (rows more : List OrderRow)
    → count_by (λ (r : OrderRow). r.id == id) rows ≡ 0
    → find_order id (rows ++ more) ≡ find_order id more
unfolding count_by find_order
find_order-append id [] more h = refl
find_order-append id (r ∷ rows) more h = ground (arith, find_order-append id rows more)

-- A test that no row passes.
any-none {ℓ} : {A : Type ℓ} (p : A → Bool) (xs : List A) → count_by p xs ≡ 0 → any p xs ≡ false
any-none p xs h = ground (arith, any_iff-count_by p xs)

-- The view of an order that has just been requested.
abbrev pub new_view :
    {schema : Schema} {input : OrderRequestedInput} → Casts schema input → ℕ → OrderView
new_view {input} c created = record {
  id = c.id;
  rider_id = c.rider_id;
  pickup_latitude = input.pickup_latitude;
  pickup_longitude = input.pickup_longitude;
  destination_latitude = input.destination_latitude;
  destination_longitude = input.destination_longitude;
  status = "requested";
  created_at = created;
}

-- Tables that the rows of a new order were added to.
module _ (schema : Schema) (input : OrderRequestedInput) (c : Casts schema input) (created : ℕ)
    (t : Tables) (h : IsConsistent t) (fresh : order_count c.id t ≡ 0) where
  abbrev after : Tables
  after = t ⊕ inserted schema input c created

  fresh-requested : has_status c.id 1 t.history ≡ false
  fresh-requested =
      any-none (λ (r : HistoryRow). r.order_id == c.id && nat_eq r.status_id 1) t.history
        (omega (arith, h.paired c.id))

  fresh-accepted : has_status c.id 3 t.history ≡ false
  fresh-accepted =
      any-none (λ (r : HistoryRow). r.order_id == c.id && nat_eq r.status_id 3) t.history
        (ground (arith, h.paired c.id, h.backed c.id))

  has_status-after :
      (has_status c.id 1 after.history ≡ true) × (has_status c.id 3 after.history ≡ false)
  has_status-after = ground (
    arith,
    fresh-requested,
    fresh-accepted,
    eq_refl c.id,
    any-append (λ (r : HistoryRow). r.order_id == c.id && nat_eq r.status_id 1) t.history
        (inserted schema input c created).history,
    any-append (λ (r : HistoryRow). r.order_id == c.id && nat_eq r.status_id 3) t.history
        (inserted schema input c created).history,
  )

  find_order-after :
      find_order c.id after.orders
      ≡ some (record {
        id = c.id;
        rider_id = c.rider_id;
        pickup_latitude = input.pickup_latitude;
        pickup_longitude = input.pickup_longitude;
        destination_latitude = input.destination_latitude;
        destination_longitude = input.destination_longitude;
        created_at = created;
      })
  unfolding find_order
  find_order-after =
      rw (find_order-append c.id t.orders (inserted schema input c created).orders fresh)
        (ground (arith, eq_refl c.id))

  latest-after : (r : HistoryRow) × (latest c.id after.history ≡ some r) × (r.status_id ≡ 1)
  latest-after =
      let status = latest_status c.id after.history (
        All-append HasShape t.history (inserted schema input c created).history h.shaped
          (omega arith)) in
      elim (Option-cases (latest c.id after.history)) [
        | inl e ↦ absurd (ground (arith, status, has_status-after))
        | inr (r, e) ↦ (r, e, ground (arith, status, has_status-after))
      ]

  view_row-after : NamesRequested schema → view_row schema after c.id ≡ some (new_view c created)
  unfolding view_row
  view_row-after named = let (r, e, status) = latest-after in ground (arith, find_order-after)

-- After a request that succeeded the order can be read: it has the rider and the coordinates that were
-- sent, under their canonical identifiers, and its status is "requested". Before it the tables were
-- consistent, and the schema has the keys of `IsKeyed`.
pub view_row-requested :
    (schema : Schema) (input : OrderRequestedInput) (c : Casts schema input) (created : ℕ)
    (t others u : Tables) (order : Order)
    → IsKeyed schema
    → NamesRequested schema
    → IsConsistent (t ⊕ others)
    → database_requested schema (up others) created input t ≡ (u, ok order)
    → (order ≡ sent schema input c created) × (view_row schema u c.id ≡ some (new_view c created))
unfolding count_by
view_row-requested schema input c created t others u order keyed named h e =
    elim (Option-cases (schema.violation (t ⊕ others ⊕ inserted schema input c created))) [
      | inl v ↦
          let fresh : order_count c.id (t ⊕ others) ≡ 0 = ground (
            arith,
            keyed.orders (t ⊕ others ⊕ inserted schema input c created) c.id v,
            order_count-⊕ c.id (t ⊕ others) (inserted schema input c created),
            eq_refl c.id,
          ) in
          ground (
            arith,
            requested_lem schema input c created t others,
            view_row-after schema input c created (t ⊕ others) h fresh named,
          )
      | inr (x, v) ↦ ground (arith, requested_lem schema input c created t others)
    ]
