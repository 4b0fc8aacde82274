-- ===== src/Database/Unordered.antt =====
-- The tables of PostgreSQL have no order of rows: what the statements of internal/orders/repository.go
-- and internal/drivers/repository.go do not depend on.
mod Found
use Prim.Native.Nat.{max}
use native.Mathlib.Nat.{ℕ_set}
use native.Mathlib.Bridge.{le_prop}
use mathlib.Core.List.{Perm, foldr, Mem, Memᴰ}
use mathlib.Core.List.Perm.{foldr-eq, mem_iff}
use mathlib.Core.List.{not-mem-nil, eq-or-mem_of_mem-cons, mem-cons_self, mem-cons_of_mem}
use mathlib.Core.Logic.Or
use mathlib.Core.HLevel.{hedberg}
use fast_platform_modular.Base.{
  ℕ, suc, zero, ◌≤◌, ◌<◌, String, ◌≡◌, refl, sym, ap, ◌∙◌, Bool, true, false, ◌==◌, Option, none,
  some, List, [], ◌∷◌, arith, count_by, if◌then◌else◌, eq_iff, Bool-cases, Option-cases, inl, inr,
  ◌>>=◌, ◌↔◌, any, not, ◌&&◌, ◌||◌, nat_eq, All,
}
use fast_platform_modular.Base.Perm.{any-Perm, count_by-Perm}
use fast_platform_modular.Database.{OrderRow, HistoryRow, Tables, Schema, no_rows}
use fast_platform_modular.Database.Statements.{
  max_sequence, find_order, latest, guard, acceptance, accepted_rows, view_of, view_row,
}
use fast_platform_modular.Database.System.Latest.{status_of, latest_status}
use fast_platform_modular.Database.System.Invariant.{HasShape, IsShaped}
use fast_platform_modular.Database.System.Counts.{order_count}
use fast_platform_modular.Database.System.{State, initial, Reach}
use fast_platform_modular.Database.System.Reachable.{Reach-IsConsistent}
use fast_platform_modular.Database.System.Lifecycle.{IsKeyed, Reach-keyed}
use fast_platform_modular.Drivers.Models.{AcceptedInput}
use fast_platform_modular.Orders.Models.{OrderView}
use fast_platform_modular.Database.Unordered.Found.{count, find_order-Perm}

module _ (o : String) where
  later : HistoryRow → ℕ → ℕ
  later r n = if r.order_id == o then max r.sequence n else n

  max_sequence-foldr : (rows : List HistoryRow) → max_sequence o rows ≡ foldr later 0 rows
  unfolding max_sequence later
  max_sequence-foldr [] = refl
  max_sequence-foldr (r ∷ rows) = ap (later r) (max_sequence-foldr rows)

  later_comm : (r q : HistoryRow) (n : ℕ) → later r (later q n) ≡ later q (later r n)
  unfolding later
  later_comm r q n = ground arith

  max_sequence-Perm : {xs ys : List HistoryRow} → Perm xs ys → max_sequence o xs ≡ max_sequence o ys
  max_sequence-Perm {xs} {ys} s =
      max_sequence-foldr xs ∙ foldr-eq ℕ_set later later_comm s 0 ∙ sym (max_sequence-foldr ys)

-- The shape of history rows as a test.
shaped : HistoryRow → Bool
shaped r =
    (nat_eq r.status_id 1 && nat_eq r.sequence 1) || (nat_eq r.status_id 3 && nat_eq r.sequence 2)

shaped_iff : (rows : List HistoryRow) → All HasShape rows ↔ (any (λ r. not (shaped r)) rows ≡ false)
unfolding shaped
shaped_iff [] = (λ h. refl, λ h. tt)
shaped_iff (r ∷ rows) = ground (arith, shaped_iff rows)

All-HasShape-Perm : {xs ys : List HistoryRow} → Perm xs ys → All HasShape xs → All HasShape ys
All-HasShape-Perm {xs} {ys} s h =
    (shaped_iff ys).1 (sym (any-Perm (λ r. not (shaped r)) s) ∙ (shaped_iff xs).0 h)

latest-Perm :
    (o : String) {xs ys : List HistoryRow}
    → Perm xs ys
    → All HasShape xs
    → status_of (latest o xs) ≡ status_of (latest o ys)
latest-Perm o {xs} {ys} s h =
    let accepted = any-Perm (λ (r : HistoryRow). r.order_id == o && nat_eq r.status_id 3) s in
    let requested = any-Perm (λ (r : HistoryRow). r.order_id == o && nat_eq r.status_id 1) s in
    latest_status o xs h
    ∙ rw (accepted, requested) (sym (latest_status o ys (All-HasShape-Perm s h)))

-- The same rows, each as often, in any order.
pub record SameRows (t u : Tables) : Type 0 where
  pub orders : Perm t.orders u.orders
  pub history : Perm t.history u.history
  pub acceptances : Perm t.acceptances u.acceptances
  pub outbox : Perm t.outbox u.outbox

guard-SameRows : (o : String) {t u : Tables} → SameRows t u → guard t o ≡ guard u o
unfolding guard
guard-SameRows o s =
    let accepted =
      any-Perm (λ (r : HistoryRow). r.order_id == o && nat_eq r.status_id 3) s.history in
    let requested =
      any-Perm (λ (r : HistoryRow). r.order_id == o && nat_eq r.status_id 1) s.history in
    rw (accepted, requested) refl

module _ (schema : Schema) where
  inserted-SameRows :
      (input : AcceptedInput) (id o driver history outbox : String) {t u : Tables}
      → SameRows t u
      → (if guard t o then acceptance t input id o driver history outbox else no_rows)
        ≡ (if guard u o then acceptance u input id o driver history outbox else no_rows)
  inserted-SameRows input id o driver history outbox s =
      rw (guard-SameRows o s, max_sequence-Perm o s.history) refl

  pub accepted_rows-SameRows :
      (input : AcceptedInput) {t u : Tables}
      → SameRows t u
      → accepted_rows schema t input ≡ accepted_rows schema u input
  unfolding accepted_rows
  accepted_rows-SameRows input s = λ i. do
    id ← schema.uuid_text input.acceptance_id
    order_id ← schema.uuid_text input.order_id
    driver_id ← schema.uuid_text input.driver_id
    history_id ← schema.uuid_text input.status_history_id
    outbox_id ← schema.uuid_text input.outbox_id
    some (inserted-SameRows input id order_id driver_id history_id outbox_id s i)

  view_at : OrderRow → Option ℕ → Option OrderView
  view_at r none = none
  view_at r (some n) =
      view_of schema r (record { id = ""; order_id = ""; sequence = 0; status_id = n })

  -- The view shows the order and the status of the latest history row.
  view_row-at :
      (t : Tables) (id : String)
      → view_row schema t id
        ≡ (find_order id t.orders >>= λ r. view_at r (status_of (latest id t.history)))
  unfolding view_row view_at view_of
  view_row-at t id = elim (Option-cases (find_order id t.orders)) [
    | inl missing ↦ rw missing refl
    | inr (r, found) ↦ elim (Option-cases (latest id t.history)) [
      | inl empty ↦ rw (found, empty) refl
      | inr (h, last) ↦ rw (found, last) refl
    ]
  ]

  view_row-SameRows :
      (id : String) {t u : Tables}
      → SameRows t u
      → order_count id t ≤ 1
      → IsShaped t
      → view_row schema t id ≡ view_row schema u id
  unfolding count
  view_row-SameRows id {t} {u} s h shape =
      let found = find_order-Perm id s.orders h in
      let status = latest-Perm id s.history shape in
      view_row-at t id ∙ rw (found, status) (sym (view_row-at u id))

-- PostgreSQL promises no order of rows. If the tables of a reachable state are put in any other order,
-- acceptedSQL inserts the same rows and viewSQL shows the same orders; the schema has the two keys of
-- `IsKeyed`.
pub Reach-SameRows :
    (schema : Schema) (s : State) (u : Tables)
    → IsKeyed schema
    → Reach schema initial s
    → SameRows s.tables u
    → ((input : AcceptedInput) → accepted_rows schema s.tables input ≡ accepted_rows schema u input)
      × ((id : String) → view_row schema s.tables id ≡ view_row schema u id)
Reach-SameRows schema s u keyed r same = (
  λ input. accepted_rows-SameRows schema input same,
  λ id.
      view_row-SameRows schema id same (Reach-keyed schema id keyed r).0
        (Reach-IsConsistent schema s r).shaped,
)
