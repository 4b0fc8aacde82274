-- ===== src/Tests/Cache.antt =====
-- A cache of one entry, and an acceptance whose early check meets an entry that is old.
use fast_platform_modular.Base.{
  String, ◌≡◌, refl, true, none, some, List, [], ◌∷◌, ◌==◌, if◌then◌else◌,
}
use fast_platform_modular.Errors.{ok, opaque}
use fast_platform_modular.Runtime.{observed}
use fast_platform_modular.Orders.Models.{OrderView}
use fast_platform_modular.Drivers.Models.{AcceptedInput}
use fast_platform_modular.Drivers.Repository.{database}
use fast_platform_modular.Drivers.Service.{prepared, do_accepted}
use fast_platform_modular.Drivers.Accepting.{Casts}
use fast_platform_modular.Database.{no_rows, ◌⊕◌, Schema}
use fast_platform_modular.Database.Run.{Link, up, lost_before, lost_after}
use fast_platform_modular.App.{
  Libraries, Setting, Turn, ours, elsewhere, post_order, get_order, post_accept, accept_order,
  serve,
}
use fast_platform_modular.App.Consistent.{Interleaved, serve-IsConsistent}
use fast_platform_modular.App.Cached.{IsHonest}
use fast_platform_modular.App.Honest.{serve-IsHonest}
use fast_platform_modular.Database.Statements.{requested_rows}
use fast_platform_modular.Database.System.{requested, rows_of, Reach, here, next, begin, commit}
use fast_platform_modular.Database.System.Runs.{quiet, Coexists-no_rows}
use fast_platform_modular.App.Transparent.{accept_order-transparent}
use fast_platform_modular.Tests.Entry.{Entry, one_entry, cache, Holds, HoldsSince, cache-IsTimed}
use fast_platform_modular.App.Fresh.{IsTimed-IsReadThrough}
use fast_platform_modular.Tests.Schema.{schema, canonical, violation, repeats}
use fast_platform_modular.Tests.System.{accepted_input, order_input, requested_tables}
use fast_platform_modular.Tests.Orders.{call, reporting}
use fast_platform_modular.Tests.Drivers.{is_uuid}
use fast_platform_modular.Http.{Request}
use fast_platform_modular.Orders.Handler.{RequestInput}
use fast_platform_modular.Database.System.Reachable.{IsConsistent}

abbrev pub libraries : Libraries Entry
libraries = record {
  schema = schema;
  is_uuid = is_uuid;
  cache = some (record { get_or_set = one_entry });
  tel = some reporting;
}

abbrev pub setting : Link → Setting
setting writing = record {
  call = call;
  created = 7;
  between = no_rows;
  reading = up no_rows;
  writing = writing;
}

abbrev pub web_request : Request
web_request = record {
  method = "POST";
  path = "/api/v1/orders";
  header = λ key. if key == "rider_id" then "R1" else "d1";
  param = λ key. "O1";
  ops = true;
}

abbrev pub body : RequestInput
body = record {
  id = "O1";
  rider_id = "";
  pickup_latitude = 11;
  pickup_longitude = 12;
  destination_latitude = 13;
  destination_longitude = 14;
}

-- A request while another process stores the same order, the same again with a lost answer, a write
-- of no rows elsewhere, a look at the order, and two acceptances.
abbrev turns : List Turn
turns =
    ours (post_order (setting (up requested_tables)) web_request (ok body))
    ∷ ours (
        post_order (setting (lost_after no_rows (opaque "connection reset"))) web_request (ok body))
    ∷ elsewhere no_rows
    ∷ ours (get_order (setting (up no_rows)) web_request)
    ∷ ours (post_accept (setting (up no_rows)) web_request)
    ∷ ours (post_accept (setting (lost_before (opaque "connection refused"))) web_request)
    ∷ []

module _ (sch : Schema) (rows : requested_rows sch order_input 7 ≡ some requested_tables)
    (allowed : sch.violation requested_tables ≡ none) where
  -- What the other process does.
  others_request : Reach sch (quiet no_rows) (quiet requested_tables)
  unfolding rows_of
  others_request =
      next (next here (begin (quiet no_rows) (requested order_input 7) requested_tables rows)) (
        commit (record { tables = no_rows; pending = requested_tables ∷ [] }) [] [] requested_tables
          refl allowed)

  beside :
      Interleaved
        (record libraries { schema = sch })
        turns
        (record { tables = no_rows; cache = none })
  beside = (
    others_request,
    (
      Coexists-no_rows sch _,
      (
        Coexists-no_rows sch _,
        (
          tt,
          ((Coexists-no_rows sch _, Coexists-no_rows sch _), ((Coexists-no_rows sch _, tt), tt)),
        ),
      ),
    ),
  )

rows_kept : requested_rows schema order_input 7 ≡ some requested_tables
unfolding requested_rows canonical
rows_kept = refl

rows_allowed : violation requested_tables ≡ none
unfolding violation repeats
rows_allowed = refl

serve-IsConsistent_example :
    IsConsistent (serve libraries turns (record { tables = no_rows; cache = none })).tables
serve-IsConsistent_example =
    serve-IsConsistent libraries turns none (beside schema rows_kept rows_allowed)

-- The same schema without keys.
abbrev unkeyed : Schema
unkeyed = record schema { violation = λ t. none }

abbrev unkeyed_libraries : Libraries Entry
unkeyed_libraries = record libraries { schema = unkeyed }

abbrev mine : AcceptedInput
mine = accepted_input "d2"

unkeyed_rows_kept : requested_rows unkeyed order_input 7 ≡ some requested_tables
unfolding requested_rows canonical
unkeyed_rows_kept = refl

casts : Casts unkeyed (prepared call mine) "o1"
unfolding prepared canonical
casts = record {
  acceptance_id = "a1";
  driver_id = "d2";
  history_id = "h2";
  outbox_id = "x2";
  acceptance_cast = refl;
  order_cast = refl;
  driver_cast = refl;
  history_cast = refl;
  outbox_cast = refl;
}

nothing_held : (key : String) (v : OrderView) → ¬ Holds key v none
nothing_held key v (t, e) = cc

accept_order-transparent_example :
    (accept_order unkeyed_libraries
      (setting (up no_rows))
      mine
      (serve unkeyed_libraries turns (record { tables = no_rows; cache = none }))).1
    ≡ observed
        (some reporting)
        (do_accepted is_uuid (database unkeyed (up no_rows)) none call mine (
          (serve unkeyed_libraries turns (record { tables = no_rows; cache = none })).tables
          ⊕ no_rows)).result
accept_order-transparent_example =
    accept_order-transparent unkeyed_libraries (setting (up no_rows)) mine "o1" no_rows refl casts
      refl cache Holds refl (IsTimed-IsReadThrough cache HoldsSince cache-IsTimed) turns none
      nothing_held (beside unkeyed unkeyed_rows_kept refl) (Coexists-no_rows unkeyed _) refl

serve-IsHonest_example :
    IsHonest schema Holds (serve libraries turns (record { tables = no_rows; cache = none }))
serve-IsHonest_example =
    serve-IsHonest libraries cache Holds refl (IsTimed-IsReadThrough cache HoldsSince cache-IsTimed)
      turns (record { tables = no_rows; cache = none }) (beside schema rows_kept rows_allowed)
      (record { start = here; seen = λ key v e. absurd (nothing_held key v e) })
