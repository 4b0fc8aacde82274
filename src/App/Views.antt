-- ===== src/App/Views.antt =====
-- What the rider service loads and answers when it reads an order: Service.Get of
-- internal/orders/service.go as cmd/platform/main.go joins it.
use fast_platform_modular.Base.{String, ◌≡◌, refl, inl, inr, true, false, some, arith, Option-cases}
use fast_platform_modular.Errors.{Error, Result, ok, err, to_error, validation_error}
use fast_platform_modular.Orders
use fast_platform_modular.Orders.Models.{OrderView}
use fast_platform_modular.Orders.Service.{ViewCache, view_ttl, cache_key, found_view, unflattened}
use fast_platform_modular.Database.{Tables, Schema}
use fast_platform_modular.Database.Statements.{view_row}
use fast_platform_modular.Database.Run.{Link, up, lost_before, lost_after, query_view, read}
use fast_platform_modular.App.{World, Libraries, Setting, get_view}

-- The database shows the view for the id.
abbrev pub Shows : Schema → Tables → String → OrderView → Type 0
Shows schema t id v =
    (order_id : String) × (schema.uuid_text id ≡ some order_id)
    × (view_row schema t order_id ≡ some v)

pub loaded-Shows :
    (schema : Schema) (link : Link) (id : String) (t : Tables) (v : OrderView)
    → found_view (query_view schema link id t) ≡ ok v
    → Shows schema t id v
unfolding query_view read found_view
loaded-Shows schema (up others) id t v e = elim (Option-cases (schema.uuid_text id)) [
  | inl bad ↦ absurd (ground arith)
  | inr (order_id, cast) ↦ elim (Option-cases (view_row schema t order_id)) [
    | inl missing ↦ absurd (ground arith)
    | inr (x, found) ↦ (order_id, cast, ground arith)
  ]
]
loaded-Shows schema (lost_before x) id t v e = ground arith
loaded-Shows schema (lost_after others x) id t v e = ground arith

pub unflattened-ok : (r : Result OrderView) (v : OrderView) → unflattened r ≡ ok v → r ≡ ok v
unfolding unflattened
unflattened-ok (ok x) v e = e
unflattened-ok (err x) v e = ground arith

-- One look at an order, where there is a cache.
module _ {C : Type 0} (lib : Libraries C) (cache : ViewCache C) (cached : lib.cache ≡ some cache)
    (at : Setting) where
  -- What the factory gives, if it is called.
  unfoldable pub loaded : String → World C → Result OrderView
  loaded id w = found_view (query_view lib.schema at.reading id w.tables)

  pub get_view-cached :
      (id : String) (w : World C)
      → lib.is_uuid id ≡ true
      → get_view lib at id w ≡ (
        record w {
          cache = (cache.get_or_set at.call.now (cache_key id) (loaded id w) view_ttl w.cache).0;
        },
        unflattened (cache.get_or_set at.call.now (cache_key id) (loaded id w) view_ttl w.cache).1,
      )
  unfolding get_view loaded Orders.Service.get Orders.Repository.database_get
  get_view-cached id w good = rw (good, cached) refl

  pub get_view-refused :
      (id : String) (w : World C)
      → lib.is_uuid id ≡ false
      → (e : Error) × (get_view lib at id w ≡ (w, err e))
  unfolding get_view Orders.Service.get
  get_view-refused id w bad = (to_error (validation_error "order_id" "must be a UUID"), rw bad refl)
