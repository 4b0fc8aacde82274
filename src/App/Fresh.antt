-- ===== src/App/Fresh.antt =====
-- How old a view may be that the rider service answers: viewTTL of internal/orders/service.go.
use mathlib.Core.Path.{subst}
use fast_platform_modular.Base.{
  ℕ, ◌+◌, ◌*◌, ◌^◌, ◌≤◌, String, ◌≡◌, refl, ◌⊎◌, inl, inr, some, List, [], ◌∷◌, ◌++◌, append_assoc,
  Bool-cases, Some, Some-append_left, Some-append_right,
}
use fast_platform_modular.Errors.{Result, ok}
use fast_platform_modular.Orders.Models.{OrderView}
use fast_platform_modular.Orders.Service.{ViewCache, view_ttl, cache_key}
use fast_platform_modular.Database.{Tables, Schema}
use fast_platform_modular.App.{
  World, Libraries, Setting, get_view, request_order, store_acceptance, accept_order, rider_service,
  driver_service, post_order, get_order, post_accept, setting_of, Turn, ours, elsewhere, serve_one,
  turn, serve,
}
use fast_platform_modular.App.Leads.{Leads, accepted-Leads, request-Leads, get-Leads, accept-Leads}
use fast_platform_modular.App.Cached.{IsReadThrough}
use fast_platform_modular.App.Views.{Shows, loaded, get_view-cached, get_view-refused, loaded-Shows}

-- What a cache with lifetimes promises, where `Since key v t c` says that it holds the view `v` and
-- has loaded it at the time `t`, in milliseconds: an answer was loaded at most the lifetime before, or
-- it is loaded now.
pub record IsTimed {C : Type 0} (cache : ViewCache C) (Since : String → OrderView → ℕ → C → Type 0)
    : Type 0 where
  pub answers :
      (now : ℕ) (key : String) (loaded : Result OrderView) (ttl : ℕ) (c : C) (v : OrderView)
      → (cache.get_or_set now key loaded ttl c).1 ≡ ok v
      → ((t : ℕ) × Since key v t c × (now * 10 ^ 6 ≤ t * 10 ^ 6 + ttl)) ⊎ (loaded ≡ ok v)
  pub keeps :
      (now : ℕ) (key k : String) (loaded : Result OrderView) (ttl : ℕ) (c : C) (v : OrderView)
      (t : ℕ)
      → Since k v t (cache.get_or_set now key loaded ttl c).0
      → Since k v t c ⊎ ((k ≡ key) × (loaded ≡ ok v) × (t ≡ now))

-- A cache with lifetimes is a read-through one.
pub IsTimed-IsReadThrough :
    {C : Type 0} (cache : ViewCache C) (Since : String → OrderView → ℕ → C → Type 0)
    → IsTimed cache Since
    → IsReadThrough cache (λ key v c. (t : ℕ) × Since key v t c)
IsTimed-IsReadThrough cache Since law = record {
  answers = λ now key loaded ttl c v e. elim (law.answers now key loaded ttl c v e) [
    | inl (t, held, live) ↦ inl (t, held)
    | inr new ↦ inr new
  ];
  keeps = λ now key k loaded ttl c v (t, held). elim (law.keeps now key k loaded ttl c v t held) [
    | inl old ↦ inl (t, old)
    | inr (same, new, is_now) ↦ inr (same, new)
  ];
}

-- The tables at the time of a call.
pub record Moment : Type 0 where
  pub time : ℕ
  pub tables : Tables

abbrev pub moment : {C : Type 0} → Setting → World C → Moment
moment at w = record { time = at.call.now; tables = w.tables }

abbrev turn_moments : {C : Type 0} → Turn → World C → List Moment
turn_moments (ours h) w = moment (setting_of h) w ∷ []
turn_moments (elsewhere rows) w = []

-- The moments at which the calls of a sequence begin.
unfoldable pub moments : {C : Type 0} → Libraries C → List Turn → World C → List Moment
moments lib [] w = []
moments lib (h ∷ turns) w = turn_moments h w ++ moments lib turns (turn lib h w)

-- The view was shown, for the key, at the moment of its time.
unfoldable pub ShownAt : Schema → String → OrderView → ℕ → Moment → Type 0
ShownAt schema key v t m =
    (t ≡ m.time) × ((id : String) × (key ≡ cache_key id) × Shows schema m.tables id v)

module _ {C : Type 0} (lib : Libraries C) (cache : ViewCache C)
    (Since : String → OrderView → ℕ → C → Type 0) (cached : lib.cache ≡ some cache)
    (law : IsTimed cache Since) where
  -- Whatever the cache holds was shown at one of the moments.
  abbrev pub IsFresh : List Moment → World C → Type 0
  IsFresh ms w =
      (key : String) (v : OrderView) (t : ℕ)
      → Since key v t w.cache
      → Some (ShownAt lib.schema key v t) ms

  -- A call that begins in the world `w`, after the moments `ms`.
  module _ (at : Setting) (w : World C) (ms : List Moment) where
    abbrev now_too : List Moment
    now_too = ms ++ moment at w ∷ []

    abbrev IsUnwritten : World C → Type 0
    IsUnwritten u = IsFresh now_too u × (u.tables ≡ w.tables)

    start-IsUnwritten : IsFresh ms w → IsUnwritten w
    start-IsUnwritten h = (
      λ key v t stored. Some-append_left (ShownAt lib.schema key v t) ms _ (h key v t stored),
      refl,
    )

    forget : (u : World C) → IsUnwritten u → IsFresh now_too u
    forget u h = h.0

    -- A view that is loaded now is shown now.
    loaded-ShownAt :
        (id : String) (u : World C) (v : OrderView)
        → u.tables ≡ w.tables
        → loaded lib cache cached at id u ≡ ok v
        → ShownAt lib.schema (cache_key id) v at.call.now (moment at w)
    unfolding loaded ShownAt
    loaded-ShownAt id u v same e =
        let shown =
          subst (λ t. Shows lib.schema t id v) same
            (loaded-Shows lib.schema at.reading id u.tables v e) in
        (refl, (id, refl, shown))

    stored-ShownAt :
        (id : String) (u : World C)
        → IsUnwritten u
        → (key : String) (v : OrderView) (t : ℕ)
        → Since key v t
            (cache.get_or_set at.call.now
              (cache_key id)
              (loaded lib cache cached at id u)
              view_ttl
              u.cache).0
        → Some (ShownAt lib.schema key v t) now_too
    stored-ShownAt id u (h, same) key v t stored =
        elim (law.keeps at.call.now (cache_key id) key (loaded lib cache cached at id u) view_ttl
          u.cache v t stored) [
            | inl old ↦ h key v t old
            | inr (is_key, new, is_now) ↦
                Some-append_right (ShownAt lib.schema key v t) ms _
                  (inl (rw (is_key, is_now) (loaded-ShownAt id u v same new)))
          ]

    get_view-IsUnwritten : Leads IsUnwritten IsUnwritten (get_view lib at)
    get_view-IsUnwritten id u h = elim (Bool-cases (lib.is_uuid id)) [
      | inl good ↦ rw (get_view-cached lib cache cached at id u good) (stored-ShownAt id u h, h.1)
      | inr bad ↦ let (e, same) = get_view-refused lib cache cached at id u bad in rw same h
    ]

    request_order-IsFresh : Leads IsUnwritten (IsFresh now_too) (request_order lib at)
    unfolding request_order
    request_order-IsFresh input u h = h.0

    store_acceptance-IsFresh : Leads IsUnwritten (IsFresh now_too) (store_acceptance lib at)
    unfolding store_acceptance
    store_acceptance-IsFresh input u h = h.0

    accept_order-IsFresh : Leads IsUnwritten (IsFresh now_too) (accept_order lib at)
    unfolding accept_order
    accept_order-IsFresh input u h =
        accepted-Leads IsUnwritten (IsFresh now_too) forget lib.is_uuid
          (record { accepted = store_acceptance lib at }) lib.tel (get_view lib at) at.call input u
          store_acceptance-IsFresh get_view-IsUnwritten h

  turn-IsFresh :
      (h : Turn) (w : World C) (ms : List Moment)
      → IsFresh ms w
      → IsFresh (ms ++ turn_moments h w) (turn lib h w)
  unfolding turn serve_one
  turn-IsFresh (ours (post_order at r body)) w ms h =
      request-Leads (IsUnwritten at w ms) (IsFresh (now_too at w ms)) (forget at w ms) lib.is_uuid
        (rider_service lib at) at.call r body w (request_order-IsFresh at w ms)
        (start-IsUnwritten at w ms h)
  turn-IsFresh (ours (get_order at r)) w ms h =
      get-Leads (IsUnwritten at w ms) (IsFresh (now_too at w ms)) (forget at w ms) lib.is_uuid
        (rider_service lib at) r w (λ id u k. (get_view-IsUnwritten at w ms id u k).0)
        (start-IsUnwritten at w ms h)
  turn-IsFresh (ours (post_accept at r)) w ms h =
      accept-Leads (IsUnwritten at w ms) (IsFresh (now_too at w ms)) (forget at w ms) lib.is_uuid
        (driver_service lib at) at.call r w (accept_order-IsFresh at w ms)
        (start-IsUnwritten at w ms h)
  turn-IsFresh (elsewhere rows) w ms h =
      λ key v t stored. Some-append_left (ShownAt lib.schema key v t) ms [] (h key v t stored)

  pub serve-IsFresh :
      (turns : List Turn) (w : World C) (ms : List Moment)
      → IsFresh ms w
      → IsFresh (ms ++ moments lib turns w) (serve lib turns w)
  unfolding serve moments
  serve-IsFresh [] w ms h =
      λ key v t stored. Some-append_left (ShownAt lib.schema key v t) ms [] (h key v t stored)
  serve-IsFresh (c ∷ turns) w ms h = λ key v t stored.
      subst (Some (ShownAt lib.schema key v t)) (append_assoc ms (turn_moments c w) _) (
        serve-IsFresh turns (turn lib c w) (ms ++ turn_moments c w) (turn-IsFresh c w ms h) key v t
          stored)
