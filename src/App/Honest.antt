-- ===== src/App/Honest.antt =====
-- What a process that serves calls keeps in its cache.
use mathlib.Core.Path.{subst}
use fast_platform_modular.Base.{String, ◌≡◌, refl, sym, some, List, [], ◌∷◌}
use fast_platform_modular.Orders.Models.{OrderView}
use fast_platform_modular.Orders.Service.{ViewCache}
use fast_platform_modular.Database.{Tables, Schema}
use fast_platform_modular.Database.System.{Reach}
use fast_platform_modular.Database.System.Runs.{Coexists, quiet, Reach-trans}
use fast_platform_modular.App.{
  World, Libraries, Setting, get_view, request_order, store_acceptance, accept_order, rider_service,
  driver_service, post_order, get_order, post_accept, Turn, ours, elsewhere, serve_one, turn, serve,
}
use fast_platform_modular.App.Leads.{Leads, accepted-Leads, request-Leads, get-Leads, accept-Leads}
use fast_platform_modular.App.Consistent.{
  RunsBeside, HappensBeside, Interleaved, get_view-Leads, request_order-Leads,
  store_acceptance-Leads,
}
use fast_platform_modular.App.Cached.{IsReadThrough, IsHonest, WasSeen-later, get_view-IsHonest}

-- Tables that are reached from honest ones are honest, with the same cache.
IsHonest-later :
    {C : Type 0} (schema : Schema) (Stored : String → OrderView → C → Type 0) (w : World C)
    (t : Tables)
    → Reach schema (quiet w.tables) (quiet t)
    → IsHonest schema Stored w
    → IsHonest schema Stored (record w { tables = t })
IsHonest-later schema Stored w t r h = record {
  start = Reach-trans schema h.start r;
  seen = λ key v stored. WasSeen-later schema r (h.seen key v stored);
}

module _ {C : Type 0} (lib : Libraries C) (cache : ViewCache C)
    (Stored : String → OrderView → C → Type 0) (cached : lib.cache ≡ some cache)
    (law : IsReadThrough cache Stored) where
  abbrev Honest : World C → Type 0
  Honest = IsHonest lib.schema Stored

  -- A call that starts in the world `w`.
  module _ (at : Setting) (w : World C) (honest : Honest w) where
    -- Honest, and with the tables of the start.
    abbrev IsUnwritten : World C → Type 0
    IsUnwritten u = Honest u × (u.tables ≡ w.tables)

    start-IsUnwritten : IsUnwritten w
    start-IsUnwritten = (honest, refl)

    forget : (u : World C) → IsUnwritten u → Honest u
    forget u h = h.0

    from_same :
        {t u : Tables}
        → u ≡ w.tables
        → Reach lib.schema (quiet w.tables) (quiet t)
        → Reach lib.schema (quiet u) (quiet t)
    from_same {t} same r = subst (λ x. Reach lib.schema (quiet x) (quiet t)) (sym same) r

    request_order-IsHonest :
        Coexists lib.schema at.writing w.tables → Leads IsUnwritten Honest (request_order lib at)
    unfolding request_order
    request_order-IsHonest meanwhile input u (h, same) =
        IsHonest-later lib.schema Stored u _
          (from_same same (request_order-Leads lib at w meanwhile input u same)) h

    store_acceptance-IsHonest :
        RunsBeside lib.schema at w.tables → Leads IsUnwritten Honest (store_acceptance lib at)
    unfolding store_acceptance
    store_acceptance-IsHonest beside input u (h, same) =
        IsHonest-later lib.schema Stored u _
          (from_same same (store_acceptance-Leads lib at w beside input u same)) h

    get_view-IsUnwritten : Leads IsUnwritten IsUnwritten (get_view lib at)
    get_view-IsUnwritten id u (h, same) =
        (get_view-IsHonest lib cache Stored cached law at id u h, get_view-Leads lib at w id u same)

    accept_order-IsHonest :
        RunsBeside lib.schema at w.tables → Leads IsUnwritten Honest (accept_order lib at)
    unfolding accept_order
    accept_order-IsHonest beside input u h =
        accepted-Leads IsUnwritten Honest forget lib.is_uuid
          (record { accepted = store_acceptance lib at }) lib.tel (get_view lib at) at.call input u
          (store_acceptance-IsHonest beside) get_view-IsUnwritten h

  turn-IsHonest :
      (h : Turn) (w : World C) → HappensBeside lib.schema h w → Honest w → Honest (turn lib h w)
  unfolding turn serve_one
  turn-IsHonest (ours (post_order at r body)) w beside h =
      request-Leads (IsUnwritten at w h) Honest (forget at w h) lib.is_uuid (rider_service lib at)
        at.call r body w (request_order-IsHonest at w h beside) (start-IsUnwritten at w h)
  turn-IsHonest (ours (get_order at r)) w beside h =
      get-Leads Honest Honest (λ u k. k) lib.is_uuid (rider_service lib at) r w
        (get_view-IsHonest lib cache Stored cached law at) h
  turn-IsHonest (ours (post_accept at r)) w beside h =
      accept-Leads (IsUnwritten at w h) Honest (forget at w h) lib.is_uuid (driver_service lib at)
        at.call r w (accept_order-IsHonest at w h beside) (start-IsUnwritten at w h)
  turn-IsHonest (elsewhere rows) w beside h = IsHonest-later lib.schema Stored w _ beside h

  -- Whatever calls a process serves, and whatever other processes write between and during them, the
  -- tables stay reachable, and every view that its cache holds is one that the database gave for the
  -- key, in a state before. The cache is a read-through one, and the same is true at the start.
  pub serve-IsHonest :
      (turns : List Turn) (w : World C)
      → Interleaved lib turns w
      → Honest w
      → Honest (serve lib turns w)
  unfolding serve
  serve-IsHonest [] w beside h = h
  serve-IsHonest (c ∷ turns) w (b, beside) h =
      serve-IsHonest turns (turn lib c w) beside (turn-IsHonest c w b h)
