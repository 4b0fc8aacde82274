-- ===== src/Tests/Orders.antt =====
-- Rider requests on the small schema: a new order, the same order again, and a blank one.
use fast_platform_modular.Base.{
  ◌≡◌, refl, some, none, trim_space, eq_iff, arith, if◌then◌else◌, [], ◌∷◌, ◌<◌, count_by,
}
use fast_platform_modular.Errors.{http, Result, ok, err}
use fast_platform_modular.Runtime.{Telemetry, Call}
use fast_platform_modular.Orders.Models.{OrderOutput}
use fast_platform_modular.Orders.Repository.{database}
use fast_platform_modular.Orders.Service.{as_pg, is_duplicate, prepared, output, do_requested}
use fast_platform_modular.Orders.Creating.{Casts, inserted, sent}
use fast_platform_modular.Orders.Requesting.{IsFilled, do_requested-stored}
use fast_platform_modular.Database.{no_rows, ◌⊕◌}
use fast_platform_modular.Database.Run.{up}
use fast_platform_modular.Database.System.{initial, here}
use fast_platform_modular.Database.System.Counts.{order_count}
use fast_platform_modular.Database.System.Reachable.{Reach-IsConsistent}
use fast_platform_modular.Database.System.Lifecycle.{phase}
use fast_platform_modular.Contract.{Fulfils, requesting}
use fast_platform_modular.Contract.Requests.{do_requested-Fulfils}
use fast_platform_modular.Tests.Schema.{
  schema, canonical, violation, repeats, schema-IsKeyed, schema-ReportsDuplicates,
}
use fast_platform_modular.Tests.System.{order_input, requested_tables}

abbrev pub call : Call
call = record {
  getenv = λ key. key;
  now = 5;
  carrier = ("traceparent", "00-1-2-01") ∷ [];
  new_order_id = "o9";
  new_rider_id = "r9";
  new_acceptance_id = "a1";
  new_history_id = "h9";
  new_outbox_id = "x9";
  elapsed = 4;
}

casts : Casts schema (prepared call order_input)
unfolding prepared canonical
casts = record {
  id = "o1";
  rider_id = "r1";
  history_id = "h1";
  outbox_id = "x1";
  order_cast = refl;
  rider_cast = refl;
  history_cast = refl;
  outbox_cast = refl;
}

order_input-IsFilled : IsFilled order_input
unfolding trim_space
order_input-IsFilled = record {
  id = λ e. ground (arith, eq_iff "O1" "");
  rider_id = λ e. ground (arith, eq_iff "R1" "");
}

do_requested-stored_example :
    do_requested (database schema (up no_rows) 7) call order_input no_rows
    ≡ elim (schema.violation
        (no_rows ⊕ no_rows ⊕ inserted schema (prepared call order_input) casts 7)) [
          | none ↦ record {
            state = no_rows ⊕ no_rows ⊕ inserted schema (prepared call order_input) casts 7;
            label = "success";
            result = ok (output (sent schema (prepared call order_input) casts 7));
          }
          | some e ↦
              if is_duplicate (as_pg e)
              then record {
                state = no_rows ⊕ no_rows;
                label = "conflict";
                result =
                    err (http 409 "ORDER_ALREADY_EXISTS" "an order with this id already exists");
              }
              else record { state = no_rows ⊕ no_rows; label = "error"; result = err e }
        ]
do_requested-stored_example =
    do_requested-stored schema call order_input 7 no_rows no_rows order_input-IsFilled casts

there : 0 < order_count "o1" (requested_tables ⊕ no_rows)
unfolding count_by
there = omega arith

abbrev answered : OrderOutput
answered = record {
  id = "O1";
  rider_id = "R1";
  pickup_latitude = 11;
  pickup_longitude = 12;
  destination_latitude = 13;
  destination_longitude = 14;
}

created :
    (do_requested (database schema (up no_rows) 7) call order_input no_rows).result ≡ ok answered
unfolding casts violation repeats prepared
created = rw do_requested-stored_example refl

-- A client that reports the error of the job.
abbrev pub reporting : Telemetry
reporting = record { worker_context = λ e. e }

abbrev rejected : Result OrderOutput
rejected = err (http 409 "ORDER_ALREADY_EXISTS" "an order with this id already exists")

nothing_admits :
    order_count casts.id (no_rows ⊕ no_rows) ≡ 0
    → schema.violation (no_rows ⊕ no_rows ⊕ inserted schema (prepared call order_input) casts 7)
      ≡ none
unfolding casts violation repeats
nothing_admits e = refl

do_requested-Fulfils_example :
    Fulfils casts.id
      (requesting (phase casts.id (no_rows ⊕ no_rows)))
      (do_requested (database schema (up no_rows) 7) call order_input no_rows)
do_requested-Fulfils_example =
    do_requested-Fulfils schema call order_input 7 no_rows no_rows order_input-IsFilled casts
      schema-IsKeyed schema-ReportsDuplicates (Reach-IsConsistent schema initial here)
      nothing_admits
