-- ===== src/Tests/Hidden.antt =====
-- The rider's own order, asked for with another spelling of the rider, against no order at all.
use fast_platform_modular.Base.{◌≡◌, ◌≢◌, refl, none, arith, eq_iff, ◌==◌, if◌then◌else◌, inl}
use fast_platform_modular.Errors.{ok}
use fast_platform_modular.Http.{Request}
use fast_platform_modular.Orders
use fast_platform_modular.Orders.Repository.{database_get}
use fast_platform_modular.Orders.Service.{found_view, unflattened, cache_key}
use fast_platform_modular.Orders.Handler.{get}
use fast_platform_modular.Orders.Visibility.{missing}
use fast_platform_modular.Database.{no_rows}
use fast_platform_modular.Database.Statements.{view_row, find_order, latest, view_of}
use fast_platform_modular.Database.Run.{query_view, read}
use fast_platform_modular.App.{World, rider_service, get_view}
use fast_platform_modular.App.Hidden.{Tells, get-indistinct}
use fast_platform_modular.Tests.Schema.{schema, canonical}
use fast_platform_modular.Tests.System.{view}
use fast_platform_modular.Tests.Orders.{call}
use fast_platform_modular.Tests.Drivers.{is_uuid}
use fast_platform_modular.Tests.Entry.{Entry, one_entry, keep}
use fast_platform_modular.Tests.Cache.{libraries, web_request}
use fast_platform_modular.Tests.Journey.{at}
use fast_platform_modular.Tests.Recent.{open_world}

abbrev empty_world : World Entry
empty_world = record { tables = no_rows; cache = none }

abbrev spelled : Request
spelled = record web_request { header = λ key. if key == "rider_id" then "R1" else "" }

own_order : (get_view libraries at "O1" open_world).1 ≡ ok (view "requested")
unfolding get_view Orders.Service.get database_get found_view query_view read view_row find_order
    latest one_entry keep canonical unflattened view_of
own_order = refl

other_spelling : (view "requested").rider_id ≢ "R1"
other_spelling e = ground (arith, eq_iff "r1" "R1")

no_view : view_row schema no_rows "o1" ≡ none
unfolding view_row find_order
no_view = refl

cold : Tells libraries.cache call.now (cache_key "O1") none
unfolding one_entry keep
cold x = (x, refl, inl refl)

get-indistinct_example :
    ((get is_uuid (rider_service libraries at) spelled open_world).1
      ≡ (get is_uuid (rider_service libraries at) spelled empty_world).1)
    × ((get is_uuid (rider_service libraries at) spelled empty_world).1 ≡ missing spelled)
unfolding canonical
get-indistinct_example =
    get-indistinct libraries at at spelled open_world empty_world (view "requested") "o1" no_rows
      refl refl own_order other_spelling refl refl no_view cold
