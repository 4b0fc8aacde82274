-- ===== src/Tests/System.antt =====
-- Two drivers accept one order at once: one commits, the other fails.
use mathlib.Core.List.Perm.{rfl, swap}
use fast_platform_modular.Base.{String, refl, [], ◌∷◌}
use fast_platform_modular.Json.{null}
use fast_platform_modular.Orders.Models.{OrderRequestedInput, OrderView}
use fast_platform_modular.Drivers.Models.{AcceptedInput}
use fast_platform_modular.Database.{Tables, ◌⊕◌}
use fast_platform_modular.Database.Statements.{requested_rows, accepted_rows, guard, max_sequence}
use fast_platform_modular.Database.System.{
  State, initial, requested, accepted, rows_of, Step, begin, commit, fail, Reach, here, next,
}
use fast_platform_modular.Database.System.Runs.{Reach-trans}
use fast_platform_modular.Database.System.Lifecycle.{phase, HasPhaseRows, Reach-HasPhaseRows}
use fast_platform_modular.Database.Unordered.{SameRows}
use fast_platform_modular.Tests.Schema.{schema, canonical, violation, repeats, schema-IsKeyed}

abbrev pub order_input : OrderRequestedInput
order_input = record {
  id = "O1";
  rider_id = "R1";
  pickup_latitude = 11;
  pickup_longitude = 12;
  destination_latitude = 13;
  destination_longitude = 14;
  status_history_id = "h1";
  outbox_id = "x1";
  payload = null;
  event_type = "order.requested";
}

abbrev pub requested_tables : Tables
requested_tables = record {
  orders =
      record {
        id = "o1";
        rider_id = "r1";
        pickup_latitude = 11;
        pickup_longitude = 12;
        destination_latitude = 13;
        destination_longitude = 14;
        created_at = 7;
      }
      ∷ [];
  history = record { id = "h1"; order_id = "o1"; sequence = 1; status_id = 1 } ∷ [];
  acceptances = [];
  outbox =
      record {
        id = "x1";
        aggregate_type = "order";
        aggregate_id = "o1";
        event_type = "order.requested";
        event_version = 1;
        payload = null;
      }
      ∷ [];
}

-- the input of the driver `driver`, and the rows of that acceptance
abbrev pub accepted_input : String → AcceptedInput
accepted_input driver = record {
  order_id = "O1";
  driver_id = driver;
  acceptance_id = "a1";
  status_history_id = "h2";
  outbox_id = "x2";
  payload = null;
  event_type = "order.accepted";
}

abbrev pub accepted_tables : String → Tables
accepted_tables driver = record {
  orders = [];
  history = record { id = "h2"; order_id = "o1"; sequence = 2; status_id = 3 } ∷ [];
  acceptances = record { id = "a1"; order_id = "o1"; driver_id = driver } ∷ [];
  outbox =
      record {
        id = "x2";
        aggregate_type = "order";
        aggregate_id = "o1";
        event_type = "order.accepted";
        event_version = 1;
        payload = null;
      }
      ∷ [];
}

abbrev open_state : State
open_state = record { tables = requested_tables; pending = [] }

pub open_state-Reach : Reach schema initial open_state
unfolding rows_of requested_rows canonical violation repeats
open_state-Reach =
    next (next here (begin initial (requested order_input 7) requested_tables refl))
      (commit (record initial { pending = requested_tables ∷ [] }) [] [] requested_tables refl refl)

-- Both statements have begun.
abbrev racing : State
racing = record {
  tables = requested_tables;
  pending = accepted_tables "d2" ∷ accepted_tables "d1" ∷ [];
}

racing-Reach : Reach schema open_state racing
unfolding rows_of accepted_rows guard max_sequence canonical
racing-Reach =
    next (next here (begin open_state (accepted (accepted_input "d1")) (accepted_tables "d1") refl))
      (begin (record open_state { pending = accepted_tables "d1" ∷ [] })
        (accepted (accepted_input "d2")) (accepted_tables "d2") refl)

abbrev won : State
won = record {
  tables = requested_tables ⊕ accepted_tables "d1";
  pending = accepted_tables "d2" ∷ [];
}

won-Step : Step schema racing won
unfolding violation repeats
won-Step = commit racing (accepted_tables "d2" ∷ []) [] (accepted_tables "d1") refl refl

abbrev pub closed_state : State
closed_state = record { tables = requested_tables ⊕ accepted_tables "d1"; pending = [] }

pub closed_state-Reach : Reach schema initial closed_state
closed_state-Reach =
    next (next (Reach-trans schema open_state-Reach racing-Reach) won-Step)
      (fail won [] [] (accepted_tables "d2") refl)

Reach-HasPhaseRows_example : HasPhaseRows (phase "o1" closed_state.tables) "o1" closed_state.tables
Reach-HasPhaseRows_example =
    Reach-HasPhaseRows schema "o1" closed_state schema-IsKeyed closed_state-Reach

-- The rows of `closed_state` in the opposite order.
abbrev pub backwards : Tables
backwards = accepted_tables "d1" ⊕ requested_tables

pub backwards-SameRows : SameRows closed_state.tables backwards
backwards-SameRows = record {
  orders = rfl;
  history = swap _ _ [];
  acceptances = rfl;
  outbox = swap _ _ [];
}

abbrev pub view : String → OrderView
view status = record {
  id = "o1";
  rider_id = "r1";
  pickup_latitude = 11;
  pickup_longitude = 12;
  destination_latitude = 13;
  destination_longitude = 14;
  status = status;
  created_at = 7;
}
