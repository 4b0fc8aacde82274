-- ===== src/App/Recent.antt =====
-- The age of the view that GET /orders/:orderId answers: viewTTL of internal/orders/service.go.
use mathlib.Core.Path.{subst}
use fast_platform_modular.Base.{
  ℕ, ◌+◌, ◌*◌, ◌^◌, ◌≤◌, String, ◌≡◌, sym, ap, inl, inr, some, List, [], ◌∷◌, ◌++◌, arith,
  Bool-cases, Some, Some-append_left, Some-append_right, Some-map,
}
use fast_platform_modular.Errors.{ok}
use fast_platform_modular.Http.{Request, json}
use fast_platform_modular.Orders
use fast_platform_modular.Orders.Models.{OrderView}
use fast_platform_modular.Orders.Service.{ViewCache, view_ttl, cache_key}
use fast_platform_modular.Orders.Visibility.{get-json_iff}
use text.Mathlib.TextLemmas.{append_cancel_left}
use fast_platform_modular.App.{World, Libraries, Setting, get_view, rider_service, Turn, serve}
use fast_platform_modular.App.Views.{
  Shows, loaded, get_view-cached, get_view-refused, unflattened-ok, loaded-Shows,
}
use fast_platform_modular.App.Fresh.{
  IsTimed, Moment, moment, moments, ShownAt, IsFresh, serve-IsFresh,
}

module _ {C : Type 0} (lib : Libraries C) (cache : ViewCache C)
    (Since : String → OrderView → ℕ → C → Type 0) (cached : lib.cache ≡ some cache)
    (law : IsTimed cache Since) where
  -- The moment was at most ten seconds before, and showed the view.
  abbrev pub WasRecent : Setting → String → OrderView → Moment → Type 0
  WasRecent at id v m = (at.call.now ≤ m.time + 10 * 10 ^ 3) × Shows lib.schema m.tables id v

  held-WasRecent :
      (at : Setting) (id : String) (v : OrderView) (t : ℕ) (m : Moment)
      → at.call.now * 10 ^ 6 ≤ t * 10 ^ 6 + view_ttl
      → ShownAt lib.schema (cache_key id) v t m
      → WasRecent at id v m
  unfolding ShownAt
  held-WasRecent at id v t m bound (same_time, (shown_id, key, shown)) =
      let same : id ≡ shown_id = append_cancel_left "orders:view:" id shown_id key in
      (omega (arith, bound, same_time), subst (λ x. Shows lib.schema m.tables x v) (sym same) shown)

  answered-WasRecent :
      (at : Setting) (id : String) (w : World C) (ms : List Moment) (v : OrderView)
      → IsFresh lib cache Since cached law ms w
      → (get_view lib at id w).1 ≡ ok v
      → Some (WasRecent at id v) (ms ++ moment at w ∷ [])
  unfolding loaded
  answered-WasRecent at id w ms v h e = elim (Bool-cases (lib.is_uuid id)) [
    | inr bad ↦
        let (x, same) = get_view-refused lib cache cached at id w bad in
        absurd (ground (arith, same))
    | inl good ↦
        let answer = unflattened-ok _ v (rw (get_view-cached lib cache cached at id w good) at e) in
        elim (law.answers at.call.now (cache_key id) (loaded lib cache cached at id w) view_ttl
          w.cache v answer) [
            | inl (t, held, bound) ↦ Some-append_left (WasRecent at id v) ms _ (
                Some-map (ShownAt lib.schema (cache_key id) v t) (WasRecent at id v) ms
                  (λ m shown. held-WasRecent at id v t m bound shown) (h (cache_key id) v t held))
            | inr new ↦
                Some-append_right (WasRecent at id v) ms _
                  (inl (omega arith, loaded-Shows lib.schema at.reading id w.tables v new))
          ]
  ]

  -- An order that GET /orders/:orderId answers is at most ten seconds old, the viewTTL: the database
  -- showed it, with the same status, when that call or an earlier one of the process began, not more
  -- than ten seconds before. The process has served any calls, with any writes in between, from an
  -- empty cache, and the cache keeps the lifetime that it is given.
  pub get-recent :
      (turns : List Turn) (w : World C) (at : Setting) (r : Request) (v : OrderView)
      → ((key : String) (x : OrderView) (t : ℕ) → ¬ Since key x t w.cache)
      → (Orders.Handler.get lib.is_uuid (rider_service lib at) r (serve lib turns w)).1 ≡ json 200 v
      → Some
          (WasRecent at (r.param "orderId") v)
          (moments lib turns w ++ moment at (serve lib turns w) ∷ [])
  get-recent turns w at r v empty e =
      let u = serve lib turns w in
      let after = (Orders.Handler.get lib.is_uuid (rider_service lib at) r u).0 in
      let (good, found, mine) =
        (get-json_iff lib.is_uuid (rider_service lib at) r u after v).0 (ap (λ x. (after, x)) e) in
      answered-WasRecent at (r.param "orderId") u (moments lib turns w) v
        (serve-IsFresh lib cache Since cached law turns w []
          (λ key x t held. absurd (empty key x t held)))
        (ap (λ p. p.1) found)
