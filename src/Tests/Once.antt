-- ===== src/Tests/Once.antt =====
-- Two acceptances of one order, with another process in between, and one that is overtaken.
use fast_platform_modular.Base.{◌≡◌, refl, none, List, [], ◌∷◌}
use fast_platform_modular.Errors.{http, err, is_client_error, to_error, new_error}
use fast_platform_modular.Http.{Request, json}
use fast_platform_modular.Runtime.{observed}
use fast_platform_modular.Orders
use fast_platform_modular.Orders.Service.{found_view, unflattened}
use fast_platform_modular.Orders.Repository.{database_get}
use fast_platform_modular.Drivers.Handler.{input_of, accept, respond}
use fast_platform_modular.Drivers.Repository.{database_accepted, accepted_result}
use fast_platform_modular.Drivers.Service.{
  accepted, do_accepted, write_unless_over, is_over, write, answer, prepared, domain_error,
}
use fast_platform_modular.Database.{no_rows}
use fast_platform_modular.Database.Statements.{
  accepted_rows, guard, max_sequence, view_row, find_order, latest, view_of,
}
use fast_platform_modular.Database.Run.{query_view, read, execute, finish}
use fast_platform_modular.App.{
  World, Setting, Turn, ours, elsewhere, get_order, driver_service, accept_order, store_acceptance,
  get_view, serve,
}
use fast_platform_modular.App.Once.{accept-once}
use fast_platform_modular.Tests.Schema.{canonical, violation, repeats}
use fast_platform_modular.Tests.System.{requested_tables, accepted_tables}
use fast_platform_modular.Tests.Orders.{call}
use fast_platform_modular.Tests.Drivers.{is_uuid}
use fast_platform_modular.Tests.Entry.{Entry, one_entry, keep}
use fast_platform_modular.Tests.Cache.{libraries, web_request}
use fast_platform_modular.Tests.Journey.{at, look}

abbrev open_world : World Entry
open_world = record { tables = requested_tables; cache = none }

-- The second driver spells the order in the canonical way.
abbrev second_request : Request
second_request = record web_request { header = λ key. "d2"; param = λ key. "o1" }

abbrev turns : List Turn
turns = elsewhere no_rows ∷ ours (get_order at look) ∷ []

first_wins :
    (accept is_uuid (driver_service libraries at) call web_request open_world).1
    ≡ json 201 (record { id = "O1" })
unfolding accept respond input_of accept_order store_acceptance accepted do_accepted observed
    write_unless_over is_over write answer prepared database_accepted accepted_result execute finish
    accepted_rows guard max_sequence canonical violation repeats get_view Orders.Service.get
    database_get found_view query_view read view_row find_order latest one_entry keep unflattened
    view_of is_client_error
first_wins = refl

-- The early check still finds the order open, but another driver accepts it before the statement begins.
abbrev overtaken : Setting
overtaken = record at { between = accepted_tables "d1" }

overtaken_answer :
    (accept_order libraries overtaken (input_of call second_request) open_world).1
    ≡ err (http 409 "ORDER_NOT_ACCEPTABLE" "order is not in the requested state")
unfolding input_of accept_order store_acceptance accepted do_accepted observed write_unless_over
    is_over write answer prepared database_accepted accepted_result execute finish accepted_rows
    guard max_sequence canonical get_view Orders.Service.get domain_error database_get found_view
    query_view read view_row find_order latest one_entry keep unflattened view_of is_client_error
    to_error new_error violation
overtaken_answer = refl

accept-once_example : ¬ (
    (accept is_uuid (driver_service libraries at) call second_request (
      serve libraries turns
        (accept is_uuid (driver_service libraries at) call web_request open_world).0)).1
    ≡ json 201 (record { id = "o1" }))
unfolding canonical
accept-once_example =
    accept-once libraries at at web_request second_request open_world turns (record { id = "O1" })
      (record { id = "o1" }) refl first_wins
