-- ===== src/App/Cached.antt =====
-- The cache of the rider service: whatever it holds was read from the database, now or before.
use text.Mathlib.TextLemmas.{append_cancel_left}
use fast_platform_modular.Base.{ℕ, String, ◌≡◌, refl, sym, ◌⊎◌, inl, inr, some, arith, Bool-cases}
use fast_platform_modular.Errors.{Result, ok, err}
use fast_platform_modular.Orders.Models.{OrderView}
use fast_platform_modular.Orders.Service.{ViewCache, view_ttl, cache_key, found_view}
use fast_platform_modular.Drivers.EarlyCheck.{WasRead, IsStale}
use fast_platform_modular.Database.{Tables, Schema}
use fast_platform_modular.Database.Run.{Link, query_view}
use fast_platform_modular.Database.System.{initial, Reach, here}
use fast_platform_modular.Database.System.Runs.{quiet, Reach-trans}
use fast_platform_modular.App.{World, Libraries, Setting, get_view}
use fast_platform_modular.App.Views.{
  loaded, get_view-cached, get_view-refused, unflattened-ok, loaded-Shows,
}

-- What a read-through cache promises, where `Stored key v c` says that it holds the view `v`: an
-- answer is a view that it held under the key or the one that was loaded, and it holds no others.
pub record IsReadThrough {C : Type 0} (cache : ViewCache C)
    (Stored : String → OrderView → C → Type 0) : Type 0 where
  pub answers :
      (now : ℕ) (key : String) (loaded : Result OrderView) (ttl : ℕ) (c : C) (v : OrderView)
      → (cache.get_or_set now key loaded ttl c).1 ≡ ok v
      → Stored key v c ⊎ (loaded ≡ ok v)
  pub keeps :
      (now : ℕ) (key k : String) (loaded : Result OrderView) (ttl : ℕ) (c : C) (v : OrderView)
      → Stored k v (cache.get_or_set now key loaded ttl c).0
      → Stored k v c ⊎ ((k ≡ key) × (loaded ≡ ok v))

-- The view is one that the database gave for the key, in a state before.
pub record WasSeen (schema : Schema) (t : Tables) (key : String) (v : OrderView) : Type 0 where
  pub id : String
  pub order_id : String
  pub key_of : key ≡ cache_key id
  pub cast : schema.uuid_text id ≡ some order_id
  pub was_read : WasRead schema (quiet t) order_id v

-- A view that was seen stays so.
pub WasSeen-later :
    (schema : Schema) {t u : Tables} {key : String} {v : OrderView}
    → Reach schema (quiet t) (quiet u)
    → WasSeen schema t key v
    → WasSeen schema u key v
WasSeen-later schema r h = record {
  id = h.id;
  order_id = h.order_id;
  key_of = h.key_of;
  cast = h.cast;
  was_read = record {
    before = h.was_read.before;
    start = h.was_read.start;
    later = Reach-trans schema h.was_read.later r;
    seen = h.was_read.seen;
  };
}

-- A view that is loaded is seen.
loaded-seen :
    (schema : Schema) (link : Link) (id : String) (t : Tables) (v : OrderView)
    → Reach schema initial (quiet t)
    → found_view (query_view schema link id t) ≡ ok v
    → WasSeen schema t (cache_key id) v
loaded-seen schema link id t v r e =
    let (order_id, cast, shown) = loaded-Shows schema link id t v e in
    record {
      id = id;
      order_id = order_id;
      key_of = refl;
      cast = cast;
      was_read = record { before = quiet t; start = r; later = here; seen = shown };
    }

-- The tables are reachable, and all that the cache holds was seen.
pub record IsHonest {C : Type 0} (schema : Schema) (Stored : String → OrderView → C → Type 0)
    (w : World C) : Type 0 where
  pub start : Reach schema initial (quiet w.tables)
  pub seen : (key : String) (v : OrderView) → Stored key v w.cache → WasSeen schema w.tables key v

-- The setting of one call, where the cache is a read-through one.
module _ {C : Type 0} (lib : Libraries C) (cache : ViewCache C)
    (Stored : String → OrderView → C → Type 0) (cached : lib.cache ≡ some cache)
    (law : IsReadThrough cache Stored) (at : Setting) where
  stored-seen :
      (id : String) (w : World C)
      → IsHonest lib.schema Stored w
      → (key : String) (v : OrderView)
      → Stored key v
          (cache.get_or_set at.call.now
            (cache_key id)
            (loaded lib cache cached at id w)
            view_ttl
            w.cache).0
      → WasSeen lib.schema w.tables key v
  unfolding loaded
  stored-seen id w h key v stored =
      elim (law.keeps at.call.now (cache_key id) key (loaded lib cache cached at id w) view_ttl
        w.cache v stored) [
          | inl old ↦ h.seen key v old
          | inr (same, new) ↦ rw same (loaded-seen lib.schema at.reading id w.tables v h.start new)
        ]

  -- Reading an order keeps the cache honest.
  pub get_view-IsHonest :
      (id : String) (w : World C)
      → IsHonest lib.schema Stored w
      → IsHonest lib.schema Stored (get_view lib at id w).0
  get_view-IsHonest id w h = elim (Bool-cases (lib.is_uuid id)) [
    | inl good ↦
        rw (get_view-cached lib cache cached at id w good)
          (record { start = h.start; seen = stored-seen id w h })
    | inr bad ↦ let (e, same) = get_view-refused lib cache cached at id w bad in rw same h
  ]

  answered-seen :
      (id : String) (w : World C) (v : OrderView)
      → IsHonest lib.schema Stored w
      → (get_view lib at id w).1 ≡ ok v
      → WasSeen lib.schema w.tables (cache_key id) v
  unfolding loaded
  answered-seen id w v h e = elim (Bool-cases (lib.is_uuid id)) [
    | inr bad ↦
        let (x, same) = get_view-refused lib cache cached at id w bad in
        absurd (ground (arith, same))
    | inl good ↦
        let answer = unflattened-ok _ v (rw (get_view-cached lib cache cached at id w good) at e) in
        elim (law.answers at.call.now (cache_key id) (loaded lib cache cached at id w) view_ttl
          w.cache v answer) [
            | inl old ↦ h.seen (cache_key id) v old
            | inr new ↦ loaded-seen lib.schema at.reading id w.tables v h.start new
          ]
  ]

  -- A view that the rider service answers is an old view of the order.
  pub answered-IsStale :
      (id order_id : String) (w : World C) (r : Result OrderView)
      → IsHonest lib.schema Stored w
      → lib.schema.uuid_text id ≡ some order_id
      → (get_view lib at id w).1 ≡ r
      → IsStale lib.schema (quiet w.tables) order_id r
  answered-IsStale id order_id w (err x) h cast e = tt
  answered-IsStale id order_id w (ok v) h cast e =
      let s = answered-seen id w v h e in
      let same : id ≡ s.id = append_cancel_left "orders:view:" id s.id s.key_of in
      let named : s.order_id ≡ order_id = ground (arith, s.cast) in rw (sym named) s.was_read
