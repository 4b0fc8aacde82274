-- ===== src/Events/Stored.antt =====
-- The events that the services put into the outbox: internal/orders/service.go and
-- internal/drivers/service.go over the statements of their repositories.
use mathlib.Core.Path.{subst}
use fast_platform_modular.Base.{ℕ, String, ◌≡◌, refl, sym, inl, inr, some, [], ◌∷◌, All, arith}
use fast_platform_modular.Runtime.{Call}
use fast_platform_modular.Orders
use fast_platform_modular.Orders.Models.{OrderRequestedInput}
use fast_platform_modular.Drivers
use fast_platform_modular.Drivers.Models.{AcceptedInput}
use fast_platform_modular.Database.{OutboxRow, Tables, Schema}
use fast_platform_modular.Database.Statements.{requested_rows, accepted_rows, bind-eq-some}
use fast_platform_modular.Database.System.{Statement, requested, accepted, rows_of}
use fast_platform_modular.Database.System.Invariant.{accepted_rows-cases}
use fast_platform_modular.Events.{requested_type, accepted_type}
use fast_platform_modular.Events.Payload.{
  Shape, requested_shape, accepted_shape, IsOf, requested-IsOf, accepted-IsOf,
}

-- The row has the event type, and a payload of the shape.
abbrev pub IsEvent : String → Shape → OutboxRow → Type 0
IsEvent event_type shape row = (row.event_type ≡ event_type) × IsOf shape row.payload

requested_rows-outbox :
    (schema : Schema) (input : OrderRequestedInput) (now : ℕ) (d : Tables)
    → requested_rows schema input now ≡ some d
    → (row : OutboxRow) × (d.outbox ≡ row ∷ [])
      × (row.event_type ≡ input.event_type)
      × (row.payload ≡ input.payload)
unfolding requested_rows
requested_rows-outbox schema input now d e =
    let (id, _, e1) = bind-eq-some (schema.uuid_text input.id) _ e in
    let (rider_id, _, e2) = bind-eq-some (schema.uuid_text input.rider_id) _ e1 in
    let (history_id, _, e3) = bind-eq-some (schema.uuid_text input.status_history_id) _ e2 in
    let (outbox_id, _, e4) = bind-eq-some (schema.uuid_text input.outbox_id) _ e3 in
    (
      record {
        id = outbox_id;
        aggregate_type = "order";
        aggregate_id = id;
        event_type = input.event_type;
        event_version = 1;
        payload = input.payload;
      },
      ground arith,
      refl,
      refl,
    )

requested-IsEvent :
    (schema : Schema) (call : Call) (input : OrderRequestedInput) (now : ℕ) (d : Tables)
    → requested_rows schema (Orders.Service.prepared call input) now ≡ some d
    → All (IsEvent (requested_type call.getenv) requested_shape) d.outbox
unfolding Orders.Service.prepared
requested-IsEvent schema call input now d e =
    let (row, only, event_type, payload) = requested_rows-outbox schema _ now d e in
    subst (All (IsEvent (requested_type call.getenv) requested_shape)) (sym only)
      ((event_type, subst (IsOf requested_shape) (sym payload) (requested-IsOf call.carrier _)), tt)

accepted-IsEvent :
    (schema : Schema) (t : Tables) (call : Call) (input : AcceptedInput) (d : Tables)
    → accepted_rows schema t (Drivers.Service.prepared call input) ≡ some d
    → All (IsEvent (accepted_type call.getenv) accepted_shape) d.outbox
unfolding Drivers.Service.prepared
accepted-IsEvent schema t call input d e =
    elim (accepted_rows-cases schema t d (Drivers.Service.prepared call input) e) [
      | inl none ↦ rw none tt
      | inr (id, order_id, driver_id, history_id, outbox_id, open_still, same) ↦
          rw same ((refl, accepted-IsOf call.carrier _), tt)
    ]

-- The write of a use case from the input that its handler gives.
abbrev pub prepare : Call → Statement → Statement
prepare call (requested input now) = requested (Orders.Service.prepared call input) now
prepare call (accepted input) = accepted (Drivers.Service.prepared call input)

abbrev pub topic_of : Call → Statement → String
topic_of call (requested input now) = requested_type call.getenv
topic_of call (accepted input) = accepted_type call.getenv

abbrev pub shape_of : Statement → Shape
shape_of (requested input now) = requested_shape
shape_of (accepted input) = accepted_shape

-- Every row that a use case puts into the outbox has the topic of its event as its type, and its
-- payload, with a trace context or without, is an object of that event: it has a member of the right
-- kind for each field of the struct, and no other but the trace context.
pub outbox-IsEvent :
    (schema : Schema) (call : Call) (st : Statement) (t d : Tables)
    → rows_of schema (prepare call st) t ≡ some d
    → All (IsEvent (topic_of call st) (shape_of st)) d.outbox
unfolding rows_of
outbox-IsEvent schema call (requested input now) t d e = requested-IsEvent schema call input now d e
outbox-IsEvent schema call (accepted input) t d e = accepted-IsEvent schema t call input d e
