-- ===== src/Tests/Settled.antt =====
-- A look that fills the cache, an acceptance, and a look eleven seconds later.
use fast_platform_modular.Base.{◌+◌, ◌≡◌, ◌≢◌, refl, some, List, [], ◌∷◌, ◌++◌, arith, All, eq_iff}
use fast_platform_modular.Errors.{is_client_error}
use fast_platform_modular.Http.{json}
use fast_platform_modular.Runtime.{observed}
use fast_platform_modular.Orders
use fast_platform_modular.Orders.Service.{found_view, unflattened}
use fast_platform_modular.Orders.Repository.{database_get}
use fast_platform_modular.Orders.Handler.{get, shown, owned}
use fast_platform_modular.Drivers.Handler.{input_of, accept, respond}
use fast_platform_modular.Drivers.Repository.{database_accepted, accepted_result}
use fast_platform_modular.Drivers.Service.{
  accepted, do_accepted, write_unless_over, is_over, write, answer, prepared,
}
use fast_platform_modular.Database.Statements.{
  accepted_rows, guard, max_sequence, view_row, find_order, latest, view_of,
}
use fast_platform_modular.Database.Run.{query_view, read, execute, finish}
use fast_platform_modular.Database.System.Runs.{Coexists-no_rows}
use fast_platform_modular.App.{
  Setting, Turn, ours, get_order, post_accept, rider_service, driver_service, accept_order,
  store_acceptance, get_view, turn, serve_one, serve,
}
use fast_platform_modular.App.Consistent.{Interleaved}
use fast_platform_modular.App.Fresh.{moment, moments}
use fast_platform_modular.App.Settled.{IsOld, get-settled}
use fast_platform_modular.Tests.Schema.{schema, canonical, violation, repeats}
use fast_platform_modular.Tests.System.{open_state-Reach, view}
use fast_platform_modular.Tests.Orders.{call}
use fast_platform_modular.Tests.Drivers.{is_uuid}
use fast_platform_modular.Tests.Entry.{one_entry, keep, cache, HoldsSince, cache-IsTimed}
use fast_platform_modular.Tests.Cache.{libraries, web_request}
use fast_platform_modular.Tests.Journey.{at, look}
use fast_platform_modular.Tests.Recent.{open_world, nothing_held}

abbrev later : Setting
later = record at { call = record call { now = call.now + 11000 } }

abbrev before : List Turn
before = ours (get_order at look) ∷ []

beside : Interleaved libraries (before ++ ours (post_accept at web_request) ∷ []) open_world
beside = (tt, ((Coexists-no_rows schema _, Coexists-no_rows schema _), tt))

won :
    (accept is_uuid
      (driver_service libraries at)
      call
      web_request
      (serve libraries before open_world)).1
    ≡ json 201 (record { id = "O1" })
unfolding accept respond input_of accept_order store_acceptance accepted do_accepted observed
    write_unless_over is_over write answer prepared database_accepted accepted_result execute finish
    accepted_rows guard max_sequence canonical violation repeats get_view Orders.Service.get
    database_get found_view query_view read view_row find_order latest one_entry keep unflattened
    view_of is_client_error serve turn serve_one get shown owned
won = refl

moments-IsOld :
    All
      (IsOld libraries cache HoldsSince refl cache-IsTimed later)
      (moments libraries before open_world ++ moment at (serve libraries before open_world) ∷ [])
unfolding moments
moments-IsOld = (omega arith, (omega arith, tt))

third_name : schema.status_code 3 ≢ some "requested"
third_name e = ground (arith, e, eq_iff "accepted" "requested")

accepted_view :
    (get is_uuid
      (rider_service libraries later)
      look
      (serve libraries (before ++ ours (post_accept at web_request) ∷ []) open_world)).1
    ≡ json 200 (view "accepted")
unfolding accept respond input_of accept_order store_acceptance accepted do_accepted observed
    write_unless_over is_over write answer prepared database_accepted accepted_result execute finish
    accepted_rows guard max_sequence canonical violation repeats get_view Orders.Service.get
    database_get found_view query_view read view_row find_order latest one_entry keep unflattened
    view_of is_client_error serve turn serve_one get shown owned
accepted_view = refl

get-settled_example : (view "accepted").status ≢ "requested"
get-settled_example =
    get-settled libraries cache HoldsSince refl cache-IsTimed before [] open_world at later
      web_request look (record { id = "O1" }) (view "accepted") nothing_held open_state-Reach beside
      third_name won moments-IsOld refl accepted_view
