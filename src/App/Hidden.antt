-- ===== src/App/Hidden.antt =====
-- An order of another rider against an order that is missing: Handler.get of
-- internal/orders/handler.go, as cmd/platform/main.go joins it with the service, the cache and the
-- database.
use fast_platform_modular.Base.{
  ℕ, String, ◌≡◌, ◌≢◌, refl, sym, ap, ◌∙◌, ◌⊎◌, inl, inr, Bool, true, Option, none, some,
}
use fast_platform_modular.Errors.{Error, ok, err, error_text, opaque, to_error, has_code, new_error}
use fast_platform_modular.Errors.Codes.{has_code-flattened}
use fast_platform_modular.Http.{Request}
use fast_platform_modular.Orders
use fast_platform_modular.Orders.Models.{OrderView}
use fast_platform_modular.Orders.Repository.{database_get}
use fast_platform_modular.Orders.Service.{
  ViewCache, view_ttl, cache_key, not_found, found_view, unflattened,
}
use fast_platform_modular.Orders.Handler.{RiderService, get, shown}
use fast_platform_modular.Orders.Visibility.{missing, get-hidden}
use fast_platform_modular.Database.{Tables}
use fast_platform_modular.Database.Statements.{view_row}
use fast_platform_modular.Database.Run.{up, query_view, read}
use fast_platform_modular.App.{World, Libraries, Setting, get_view, rider_service}

-- The cache answers with the error of the factory, or with that error flattened to its text, as it does
-- where it holds nothing for the key.
abbrev pub Tells : {C : Type 0} → Option (ViewCache C) → ℕ → String → C → Type 0
Tells none now key held = Unit {0}
Tells (some cache) now key held =
    (x : Error)
    → (y : Error) × ((cache.get_or_set now key (err x) view_ttl held).1 ≡ err y)
      × ((y ≡ x) ⊎ (y ≡ opaque (error_text x)))

coded :
    (y : Error)
    → (y ≡ to_error not_found) ⊎ (y ≡ opaque (error_text (to_error not_found)))
    → has_code (some y) "ORDER_NOT_FOUND" ≡ true
unfolding to_error new_error has_code
coded y (inl same) = rw same refl
coded y (inr flat) =
    ap (λ z. has_code (some z) "ORDER_NOT_FOUND") flat ∙ has_code-flattened not_found

unflattened-not_found :
    (y : Error)
    → (y ≡ to_error not_found) ⊎ (y ≡ opaque (error_text (to_error not_found)))
    → unflattened (err y) ≡ err (to_error not_found)
unfolding unflattened
unflattened-not_found y told = rw (coded y told) refl

-- A service that finds no order gives the answer for a missing one.
get-missing :
    {W : Type 0} (is_uuid : String → Bool) (service : RiderService W) (r : Request) (w : W)
    → is_uuid (r.header "rider_id") ≡ true
    → (service.get (r.param "orderId") w).1 ≡ err (to_error not_found)
    → (get is_uuid service r w).1 ≡ missing r
unfolding get shown to_error new_error
get-missing is_uuid service r w good none_found = rw (good, shown, none_found) refl

module _ {C : Type 0} (lib : Libraries C) where
  get_view-missing :
      (at : Setting) (id order_id : String) (u : World C) (others : Tables)
      → lib.is_uuid id ≡ true
      → at.reading ≡ up others
      → lib.schema.uuid_text id ≡ some order_id
      → view_row lib.schema u.tables order_id ≡ none
      → (cache : Option (ViewCache C)) → lib.cache ≡ cache
      → Tells cache at.call.now (cache_key id) u.cache
      → (get_view lib at id u).1 ≡ err (to_error not_found)
  unfolding get_view Orders.Service.get database_get query_view read found_view
  get_view-missing at id order_id u others good reading cast absent none same tells =
      rw (good, same, reading, cast, absent) refl
  get_view-missing at id order_id u others good reading cast absent (some cache) same tells =
      let (y, answered, told) = tells (to_error not_found) in
      rw (good, same, reading, cast, absent, answered) (unflattened-not_found y told)

  -- An order of another rider, by the text of the rider_id header, and an order that is missing get the
  -- same answer to the same request: 404 ORDER_NOT_FOUND, and the same log line, so that the answer
  -- does not tell whether the order exists. The header and the orderId are UUIDs, PostgreSQL takes the
  -- orderId, the call that finds nothing reaches the database, and the cache, if there is one, then
  -- answers with the error of the factory, or with that error flattened to its text.
  pub get-indistinct :
      (at later : Setting) (r : Request) (w u : World C) (v : OrderView) (order_id : String)
      (others : Tables)
      → lib.is_uuid (r.header "rider_id") ≡ true
      → lib.is_uuid (r.param "orderId") ≡ true
      → (get_view lib at (r.param "orderId") w).1 ≡ ok v
      → v.rider_id ≢ r.header "rider_id"
      → later.reading ≡ up others
      → lib.schema.uuid_text (r.param "orderId") ≡ some order_id
      → view_row lib.schema u.tables order_id ≡ none
      → Tells lib.cache later.call.now (cache_key (r.param "orderId")) u.cache
      → ((get lib.is_uuid (rider_service lib at) r w).1
          ≡ (get lib.is_uuid (rider_service lib later) r u).1)
        × ((get lib.is_uuid (rider_service lib later) r u).1 ≡ missing r)
  get-indistinct at later r w u v order_id others rider_ok order_ok found other reading cast absent
        tells =
      let id = r.param "orderId" in
      let after = (get_view lib at id w).0 in
      let hidden =
        ap (λ p. p.1)
          (get-hidden lib.is_uuid (rider_service lib at) r w after v rider_ok
            (ap (λ x. (after, x)) found) other) in
      let lacking = get-missing lib.is_uuid (rider_service lib later) r u rider_ok (
        get_view-missing later id order_id u others order_ok reading cast absent lib.cache refl
          tells) in
      (hidden ∙ sym lacking, lacking)
