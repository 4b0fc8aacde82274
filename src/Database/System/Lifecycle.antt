-- ===== src/Database/System/Lifecycle.antt =====
-- The life of one order, as a machine of three phases that the tables implement.
use fast_platform_modular.Base.{
  ℕ, ◌≤◌, ◌<◌, String, ◌≡◌, refl, Bool, true, false, ◌&&◌, ◌↔◌, count_by, Option, none, some, arith,
  any_iff-count_by, nat_eq, ◌==◌, if◌then◌else◌,
}
use fast_platform_modular.Database.{HistoryRow, Tables, ◌⊕◌, Schema}
use fast_platform_modular.Database.Statements.{has_status, latest}
use fast_platform_modular.Database.System.{State, initial, begin, commit, fail, Reach, here, next}
use fast_platform_modular.Database.System.Counts.{
  order_count, status_count, acceptance_count, event_count,
}
use fast_platform_modular.Database.System.Invariant.{IsPaired, IsBacked}
use fast_platform_modular.Database.System.Reachable.{Reach-IsConsistent}
use fast_platform_modular.Database.System.Latest.{status_of, latest_status}

pub data Phase : Type 0 where
  absent requested accepted : Phase

pub data Move : Phase → Phase → Type 0 where
  stay : (p : Phase) → Move p p
  request : Move absent requested
  accept : Move requested accepted

unfoldable pub phase : String → Tables → Phase
phase o t =
    if has_status o 3 t.history
    then accepted
    else if has_status o 1 t.history
    then requested
    else absent

-- The keys of the schema that the statements rely on: orders_pkey on the id of an order, and
-- uq_order_acceptances_order on the order of an acceptance.
pub record IsKeyed (schema : Schema) : Type 0 where
  pub orders : (t : Tables) (o : String) → schema.violation t ≡ none → order_count o t ≤ 1
  pub acceptances : (t : Tables) (o : String) → schema.violation t ≡ none → acceptance_count o t ≤ 1

-- The numbers of rows for an order, and the status of its latest history row.
pub record HasRows (o : String) (a b c : ℕ) (s : Option ℕ) (t : Tables) : Type 0 where
  pub orders : order_count o t ≡ a
  pub acceptances : acceptance_count o t ≡ b
  pub events : event_count o t ≡ c
  pub status : status_of (latest o t.history) ≡ s

-- The rows of an order in each phase.
abbrev pub HasPhaseRows : Phase → String → Tables → Type 0
HasPhaseRows absent o t = HasRows o 0 0 0 none t
HasPhaseRows requested o t = HasRows o 1 0 1 (some 1) t
HasPhaseRows accepted o t = HasRows o 1 1 2 (some 3) t

-- No state reaches two rows of one key.
pub Reach-keyed :
    (schema : Schema) (o : String) (keyed : IsKeyed schema) {u : State}
    → Reach schema initial u
    → (order_count o u.tables ≤ 1) × (acceptance_count o u.tables ≤ 1)
unfolding count_by
Reach-keyed schema o keyed here = omega arith
Reach-keyed schema o keyed (next r (begin s st d e)) = Reach-keyed schema o keyed r
Reach-keyed schema o keyed (next r (commit s before after d e v)) =
    (keyed.orders (s.tables ⊕ d) o v, keyed.acceptances (s.tables ⊕ d) o v)
Reach-keyed schema o keyed (next r (fail s before after d e)) = Reach-keyed schema o keyed r

HasPhaseRows-of_tests :
    (o : String) (t : Tables) (a3 a1 : Bool)
    → IsPaired o t
    → IsBacked o t t
    → order_count o t ≤ 1
    → acceptance_count o t ≤ 1
    → (a3 ≡ true) ↔ (0 < status_count o 3 t)
    → (a1 ≡ true) ↔ (0 < status_count o 1 t)
    → status_of (latest o t.history) ≡ (if a3 then some 3 else if a1 then some 1 else none)
    → HasPhaseRows (if a3 then accepted else if a1 then requested else absent) o t
HasPhaseRows-of_tests o t true a1 h b p q e3 e1 s = ground (arith, e3.0 refl, b)
HasPhaseRows-of_tests o t false true h b p q e3 e1 s = ground (arith, e1.0 refl)
HasPhaseRows-of_tests o t false false h b p q e3 e1 s = ground arith

-- In every reachable state an order is absent, with no row; or requested, with one order, one event
-- and "requested" as its latest status; or accepted, with one order, one acceptance, two events and
-- "accepted" as its latest status. The schema has the two keys of `IsKeyed`.
pub Reach-HasPhaseRows :
    (schema : Schema) (o : String) (u : State)
    → IsKeyed schema
    → Reach schema initial u
    → HasPhaseRows (phase o u.tables) o u.tables
unfolding phase
Reach-HasPhaseRows schema o u keyed r =
    let h = Reach-IsConsistent schema u r in
    let bounds = Reach-keyed schema o keyed r in
    HasPhaseRows-of_tests o u.tables _ _ (h.paired o) (h.backed o) bounds.0 bounds.1
      (any_iff-count_by (λ (r : HistoryRow). r.order_id == o && nat_eq r.status_id 3)
        u.tables.history)
      (any_iff-count_by (λ (r : HistoryRow). r.order_id == o && nat_eq r.status_id 1)
        u.tables.history)
      (latest_status o u.tables.history h.shaped)
