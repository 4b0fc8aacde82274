-- ===== src/Tests/Drivers.antt =====
-- Acceptances on the small schema: of an open order, in a lost race, of an accepted order, and after
-- an early look at an old view; and the calls of a whole process.
use fast_platform_modular.Base.{
  String, ◌≡◌, refl, Bool, true, false, not, Option, none, some, ◌<◌, count_by, arith, ◌==◌, List,
  [], ◌∷◌, any, ◌||◌, ◌&&◌, nat_eq, if◌then◌else◌,
}
use fast_platform_modular.Errors.{Error, http, pg, ok, err}
use fast_platform_modular.Drivers.Models.{AcceptedInput}
use fast_platform_modular.Drivers.Repository.{database}
use fast_platform_modular.Drivers.Service.{prepared, do_accepted}
use fast_platform_modular.Drivers.Accepting.{Casts, inserted}
use fast_platform_modular.Drivers.Conflicts.{
  acceptances, history, lost_report, IsReport, reported_error, won_rows, do_accepted-closed,
  do_accepted-open, do_accepted-raced,
}
use fast_platform_modular.Database.{HistoryRow, Tables, Schema, no_rows, ◌⊕◌}
use fast_platform_modular.Database.Statements.{guard, max_sequence}
use fast_platform_modular.Database.Run.{up}
use fast_platform_modular.Database.System.Counts.{acceptance_count}
use fast_platform_modular.Database.System.Lifecycle.{phase, IsKeyed}
use fast_platform_modular.Database.System.Invariant.{IsShaped}
use fast_platform_modular.Database.System.Reachable.{Reach-IsConsistent}
use fast_platform_modular.Contract.{Fulfils, accepting}
use fast_platform_modular.Contract.Accepts.{do_accepted-Fulfils}
use fast_platform_modular.Tests.Schema.{schema, canonical, violation, repeats, schema-IsKeyed}
use fast_platform_modular.Tests.System.{
  requested_tables, accepted_input, accepted_tables, closed_state, closed_state-Reach,
}
use fast_platform_modular.Tests.Orders.{call}

abbrev pub is_uuid : String → Bool
is_uuid s = not (s == "")

abbrev mine : AcceptedInput
mine = accepted_input "d2"

-- The small schema with other constraints.
abbrev constrained : (Tables → Option Error) → Schema
constrained violated = record schema { violation = violated }

casts : (violated : Tables → Option Error) → Casts (constrained violated) (prepared call mine) "o1"
unfolding prepared canonical
casts violated = record {
  acceptance_id = "a1";
  driver_id = "d2";
  history_id = "h2";
  outbox_id = "x2";
  acceptance_cast = refl;
  order_cast = refl;
  driver_cast = refl;
  history_cast = refl;
  outbox_cast = refl;
}

-- The acceptance of the other driver, which commits meanwhile.
abbrev theirs : Tables
theirs = accepted_tables "d1"

open_guard : guard requested_tables "o1" ≡ true
unfolding guard
open_guard = refl

closed_guard : guard closed_state.tables "o1" ≡ false
unfolding guard
closed_guard = refl

closed_allowed : schema.violation (closed_state.tables ⊕ no_rows) ≡ none
unfolding violation repeats
closed_allowed = refl

do_accepted-closed_example :
    do_accepted is_uuid (database schema (up no_rows)) none call mine closed_state.tables ≡ record {
      state = closed_state.tables ⊕ no_rows;
      label = "error";
      result = err (http 409 "ORDER_NOT_ACCEPTABLE" "order is not in the requested state");
    }
do_accepted-closed_example =
    do_accepted-closed schema is_uuid call mine "o1" closed_state.tables no_rows (casts violation)
      refl refl closed_guard closed_allowed

taken : 0 < acceptance_count "o1" (requested_tables ⊕ theirs)
unfolding count_by
taken = omega arith

-- Two rows of the history with one order and one sequence number.
unfoldable renumbers : List HistoryRow → Bool
renumbers [] = false
renumbers (r ∷ rows) =
    any (λ (q : HistoryRow). q.order_id == r.order_id && nat_eq q.sequence r.sequence) rows
    || renumbers rows

abbrev renumbered : Tables → Option Error
renumbered t =
    if renumbers t.history
    then some (pg "23505" "order_status_history_order_id_sequence_key" "duplicate key")
    else none

unfoldable or_else : Option Error → Option Error → Option Error
or_else none y = y
or_else (some e) y = some e

or_else-none : (x y : Option Error) → or_else x y ≡ none → (x ≡ none) × (y ≡ none)
unfolding or_else
or_else-none none y h = (refl, h)
or_else-none (some e) y h = cc

-- The key of the history, met before the other two and after them.
abbrev first_history : Tables → Option Error
first_history t = or_else (renumbered t) (violation t)

abbrev last_history : Tables → Option Error
last_history t = or_else (violation t) (renumbered t)

constrained-IsKeyed :
    (violated : Tables → Option Error)
    → ((t : Tables) → violated t ≡ none → violation t ≡ none)
    → IsKeyed (constrained violated)
constrained-IsKeyed violated stronger = record {
  orders = λ t o h. schema-IsKeyed.orders t o (stronger t h);
  acceptances = λ t o h. schema-IsKeyed.acceptances t o (stronger t h);
}

reported :
    (e : Error)
    → first_history (requested_tables ⊕ theirs ⊕ inserted (casts first_history) requested_tables)
      ≡ some e
    → e ≡ lost_report history "duplicate key"
unfolding violation repeats renumbers or_else casts max_sequence
reported e h = ground arith

do_accepted-raced_example :
    do_accepted is_uuid
      (database (constrained first_history) (up theirs))
      none
      call
      mine
      requested_tables
    ≡ record {
      state = requested_tables ⊕ theirs;
      label = "error";
      result = err (pg "23505" "order_status_history_order_id_sequence_key" "duplicate key");
    }
do_accepted-raced_example =
    do_accepted-raced (constrained first_history) is_uuid call mine "o1" requested_tables theirs
      (casts first_history) refl refl history "duplicate key"
      (constrained-IsKeyed first_history (λ t h. (or_else-none (renumbered t) (violation t) h).1))
      open_guard taken reported

-- The rows of the acceptance where the history's key is met last.
abbrev won : Tables
won =
    won_rows (constrained last_history) is_uuid call mine "o1" requested_tables no_rows
      (casts last_history) refl refl

open_reports : (e : Error) → last_history (requested_tables ⊕ no_rows ⊕ won) ≡ some e → IsReport e
unfolding violation repeats renumbers or_else casts
open_reports e h = ground arith

requested_tables-IsShaped : IsShaped requested_tables
requested_tables-IsShaped = omega arith

do_accepted-open_example :
    do_accepted is_uuid
      (database (constrained last_history) (up no_rows))
      none
      call
      mine
      requested_tables
    ≡ elim (last_history (requested_tables ⊕ no_rows ⊕ won)) [
      | none ↦ record {
        state = requested_tables ⊕ no_rows ⊕ won;
        label = "success";
        result = ok (record { id = "O1" });
      }
      | some e ↦ record {
        state = requested_tables ⊕ no_rows;
        label = "error";
        result = err (reported_error e);
      }
    ]
do_accepted-open_example =
    do_accepted-open (constrained last_history) is_uuid call mine "o1" requested_tables no_rows
      (casts last_history) refl refl requested_tables-IsShaped open_reports open_guard

raced_allowed : last_history (requested_tables ⊕ theirs) ≡ none
unfolding violation repeats renumbers or_else
raced_allowed = refl

raced_admits :
    acceptance_count "o1" (requested_tables ⊕ theirs) ≡ 0
    → last_history (requested_tables ⊕ theirs ⊕ inserted (casts last_history) requested_tables)
      ≡ none
raced_admits e = absurd (omega (arith, taken, e))

acceptances_reported :
    (e : Error)
    → last_history (requested_tables ⊕ theirs ⊕ inserted (casts last_history) requested_tables)
      ≡ some e
    → e ≡ lost_report acceptances "duplicate key"
unfolding violation repeats renumbers or_else casts max_sequence
acceptances_reported e h = ground arith

do_accepted-Fulfils_example :
    Fulfils "o1"
      (accepting acceptances (phase "o1" requested_tables) (phase "o1" (requested_tables ⊕ theirs)))
      (do_accepted is_uuid
        (database (constrained last_history) (up theirs))
        none
        call
        mine
        requested_tables)
do_accepted-Fulfils_example =
    do_accepted-Fulfils (constrained last_history) is_uuid call mine "o1" acceptances
      "duplicate key" requested_tables theirs (casts last_history) refl refl
      (constrained-IsKeyed last_history (λ t h. (or_else-none (violation t) (renumbered t) h).0))
      (Reach-IsConsistent schema closed_state closed_state-Reach) raced_allowed raced_admits
      acceptances_reported
