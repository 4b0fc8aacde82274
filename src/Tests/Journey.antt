-- ===== src/Tests/Journey.antt =====
-- A rider requests an order and looks at it.
use fast_platform_modular.Base.{
  ◌≡◌, refl, none, some, eq_iff, trim_space, arith, ◌==◌, if◌then◌else◌,
}
use fast_platform_modular.Errors.{ok, is_client_error}
use fast_platform_modular.Http.{Request, json}
use fast_platform_modular.Orders.Models.{OrderOutput}
use fast_platform_modular.Orders.Creating.{Casts}
use fast_platform_modular.Orders.Reading.{new_view}
use fast_platform_modular.Orders.Requesting.{IsFilled}
use fast_platform_modular.Orders.Service.{prepared, cache_key, requested, do_requested}
use fast_platform_modular.Orders.Repository.{database_requested}
use fast_platform_modular.Orders.Handler.{input_of, respond, request, request_bound, get}
use fast_platform_modular.Database.{no_rows}
use fast_platform_modular.Database.Statements.{requested_rows}
use fast_platform_modular.Database.Run.{up}
use fast_platform_modular.Database.System.{initial, here}
use fast_platform_modular.Database.System.Reachable.{Reach-IsConsistent}
use fast_platform_modular.App.{World, Setting, rider_service, request_order}
use fast_platform_modular.App.Journey.{Misses, get-request}
use fast_platform_modular.Tests.Schema.{schema, canonical, violation, repeats, schema-IsKeyed}
use fast_platform_modular.Tests.Orders.{call}
use fast_platform_modular.Tests.Drivers.{is_uuid}
use fast_platform_modular.Tests.Cache.{libraries, setting, web_request, body}
use fast_platform_modular.Tests.Entry.{Entry, one_entry, keep, cache}

abbrev pub at : Setting
at = setting (up no_rows)

-- The rider's header in its canonical spelling.
abbrev pub look : Request
look = record web_request { header = λ key. if key == "rider_id" then "r1" else "" }

abbrev empty_world : World Entry
empty_world = record { tables = no_rows; cache = none }

body-IsFilled : IsFilled (input_of call web_request body)
unfolding trim_space input_of
body-IsFilled = record {
  id = λ e. ground (arith, eq_iff "O1" "");
  rider_id = λ e. ground (arith, eq_iff "R1" "");
}

body_casts : Casts schema (prepared call (input_of call web_request body))
unfolding prepared canonical input_of
body_casts = record {
  id = "o1";
  rider_id = "r1";
  history_id = "h9";
  outbox_id = "x9";
  order_cast = refl;
  rider_cast = refl;
  history_cast = refl;
  outbox_cast = refl;
}

abbrev answered : OrderOutput
answered = record {
  id = "O1";
  rider_id = "R1";
  pickup_latitude = 11;
  pickup_longitude = 12;
  destination_latitude = 13;
  destination_longitude = 14;
}

created :
    (request is_uuid (rider_service libraries at) call web_request (ok body) empty_world).1
    ≡ json 201 answered
unfolding request request_bound respond request_order requested do_requested input_of prepared
    database_requested canonical violation repeats trim_space requested_rows is_client_error
created = refl

cold :
    Misses
      (some cache)
      call.now
      (cache_key "O1")
      (request is_uuid (rider_service libraries at) call web_request (ok body) empty_world).0.cache
unfolding request request_bound respond request_order one_entry keep input_of requested trim_space
    database_requested requested_rows canonical prepared violation is_client_error
cold v = refl

get-request_example :
    (get is_uuid
      (rider_service libraries at)
      look
      (request is_uuid (rider_service libraries at) call web_request (ok body) empty_world).0).1
    ≡ json 200 (new_view body_casts 7)
unfolding body_casts canonical
get-request_example =
    get-request libraries at at web_request look body empty_world no_rows no_rows body-IsFilled
      body_casts refl refl schema-IsKeyed refl (Reach-IsConsistent schema initial here) answered
      created refl refl refl refl cold
