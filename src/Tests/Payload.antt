-- ===== src/Tests/Payload.antt =====
-- The event of a request, with a trace context.
use fast_platform_modular.Base.{◌≡◌, refl, some, [], ◌∷◌, All}
use fast_platform_modular.Runtime.{Call}
use fast_platform_modular.Orders.Service.{prepared}
use fast_platform_modular.Database.{Tables, no_rows}
use fast_platform_modular.Database.Statements.{requested_rows}
use fast_platform_modular.Database.System.{requested, rows_of}
use fast_platform_modular.Events.Stored.{IsEvent, prepare, topic_of, shape_of, outbox-IsEvent}
use fast_platform_modular.Tests.Schema.{schema, canonical}
use fast_platform_modular.Tests.System.{order_input, requested_tables}
use fast_platform_modular.Tests.Orders.{call}

-- The call in a span.
abbrev traced : Call
traced = record call { carrier = ("traceparent", "00-1-2-01") ∷ [] }

abbrev stored : Tables
stored = record requested_tables {
  outbox =
      record {
        id = "x1";
        aggregate_type = "order";
        aggregate_id = "o1";
        event_type = (prepared traced order_input).event_type;
        event_version = 1;
        payload = (prepared traced order_input).payload;
      }
      ∷ [];
}

stored_rows : rows_of schema (prepare traced (requested order_input 7)) no_rows ≡ some stored
unfolding rows_of requested_rows prepared canonical
stored_rows = refl

outbox-IsEvent_example :
    All
      (IsEvent (topic_of traced (requested order_input 7)) (shape_of (requested order_input 7)))
      stored.outbox
outbox-IsEvent_example =
    outbox-IsEvent schema traced (requested order_input 7) no_rows stored stored_rows
