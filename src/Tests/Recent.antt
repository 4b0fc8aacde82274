-- ===== src/Tests/Recent.antt =====
-- A cached view of an order that was accepted meanwhile.
use fast_platform_modular.Base.{ℕ, ◌+◌, String, ◌≡◌, refl, none, List, [], ◌∷◌, ◌++◌, Some}
use fast_platform_modular.Http.{json}
use fast_platform_modular.Orders
use fast_platform_modular.Orders.Models.{OrderView}
use fast_platform_modular.Orders.Service.{found_view, unflattened}
use fast_platform_modular.Orders.Repository.{database_get}
use fast_platform_modular.Orders.Handler.{get, shown, owned}
use fast_platform_modular.Database.Statements.{view_row, find_order, latest, view_of}
use fast_platform_modular.Database.Run.{query_view, read}
use fast_platform_modular.App.{
  World, Setting, Turn, ours, elsewhere, get_order, rider_service, get_view, serve_one, turn, serve,
}
use fast_platform_modular.App.Fresh.{moment, moments}
use fast_platform_modular.App.Recent.{WasRecent, get-recent}
use fast_platform_modular.Tests.Schema.{canonical}
use fast_platform_modular.Tests.System.{requested_tables, accepted_tables, view}
use fast_platform_modular.Tests.Orders.{call}
use fast_platform_modular.Tests.Drivers.{is_uuid}
use fast_platform_modular.Tests.Entry.{Entry, one_entry, keep, cache, HoldsSince, cache-IsTimed}
use fast_platform_modular.Tests.Cache.{libraries}
use fast_platform_modular.Tests.Journey.{at, look}

-- A look that fills the cache, and a second one five seconds later, by which the order is accepted.
abbrev pub open_world : World Entry
open_world = record { tables = requested_tables; cache = none }

abbrev turns : List Turn
turns = ours (get_order at look) ∷ elsewhere (accepted_tables "d1") ∷ []

abbrev later : Setting
later = record at { call = record call { now = call.now + 5000 } }

pub nothing_held : (key : String) (x : OrderView) (t : ℕ) → ¬ HoldsSince key x t none
nothing_held key x t e = cc

old_view :
    (get is_uuid (rider_service libraries later) look (serve libraries turns open_world)).1
    ≡ json 200 (view "requested")
unfolding get shown owned serve turn serve_one get_view Orders.Service.get database_get found_view
    query_view read view_row find_order latest one_entry keep canonical unflattened view_of
old_view = refl

get-recent_example :
    Some
      (WasRecent libraries cache HoldsSince refl cache-IsTimed later "O1" (view "requested"))
      (moments libraries turns open_world ++ moment later (serve libraries turns open_world) ∷ [])
get-recent_example =
    get-recent libraries cache HoldsSince refl cache-IsTimed turns open_world later look
      (view "requested") nothing_held old_view
