-- ===== src/Database/Stale.antt =====
-- What an old view of an order still says about the guard of acceptedSQL.
use fast_platform_modular.Base.{
  ℕ, String, ◌≡◌, ◌≢◌, sym, ap, ◌∙◌, true, false, ◌&&◌, some, arith, any-append, nat_eq, ◌==◌,
}
use fast_platform_modular.Orders.Models.{OrderView}
use fast_platform_modular.Database.{HistoryRow, Tables, ◌⊕◌, Schema}
use fast_platform_modular.Database.Statements.{
  has_status, latest, guard, view_row, find_order, bind-eq-some,
}
use fast_platform_modular.Database.System.{State, initial, Reach}
use fast_platform_modular.Database.System.Invariant.{IsShaped}
use fast_platform_modular.Database.System.Reachable.{Reach-IsConsistent, Reach-append_only}
use fast_platform_modular.Database.System.Latest.{latest_status}

-- The code of status 1 in order_statuses.
abbrev pub NamesRequested : Schema → Type 0
NamesRequested schema = schema.status_code 1 ≡ some "requested"

view_row-has_status :
    (schema : Schema) (t : Tables) (id : String) (v : OrderView)
    → NamesRequested schema
    → IsShaped t
    → view_row schema t id ≡ some v
    → v.status ≢ "requested"
    → has_status id 3 t.history ≡ true
unfolding view_row
view_row-has_status schema t id v named h e n =
    let (o, _, e1) = bind-eq-some (find_order id t.orders) _ e in
    let (r, found, e2) = bind-eq-some (latest id t.history) _ e1 in
    let (s, code, e3) = bind-eq-some (schema.status_code r.status_id) _ e2 in
    ground (arith, latest_status id t.history h)

-- An order with a row of its acceptance is not shown as requested.
pub view_row-over :
    (schema : Schema) (t : Tables) (id : String) (v : OrderView)
    → schema.status_code 3 ≢ some "requested"
    → IsShaped t
    → has_status id 3 t.history ≡ true
    → view_row schema t id ≡ some v
    → v.status ≢ "requested"
unfolding view_row
view_row-over schema t id v named h over e same =
    let (o, _, e1) = bind-eq-some (find_order id t.orders) _ e in
    let (r, found, e2) = bind-eq-some (latest id t.history) _ e1 in
    let (s, code, e3) = bind-eq-some (schema.status_code r.status_id) _ e2 in
    let third : r.status_id ≡ 3 = ground (arith, found, over, latest_status id t.history h) in
    let shown : schema.status_code 3 ≡ some "requested" =
      sym (ap schema.status_code third) ∙ code ∙ ap some (ground (arith, e3, same)) in
    named shown

-- Once an order is accepted it stays so.
pub has_status-⊕ :
    (o : String) (n : ℕ) (t d : Tables)
    → has_status o n t.history ≡ true
    → has_status o n (t ⊕ d).history ≡ true
has_status-⊕ o n t d h =
    rw
      (any-append (λ (r : HistoryRow). r.order_id == o && nat_eq r.status_id n) t.history d.history)
      (ground arith)

-- A view that was read in an earlier state, however long ago, and that shows a status other than
-- "requested", means that the guard of acceptedSQL fails in every later state. The code of status 1
-- is "requested".
pub stale_view-guard :
    (schema : Schema) (s u : State) (id : String) (v : OrderView)
    → NamesRequested schema
    → Reach schema initial s
    → view_row schema s.tables id ≡ some v
    → v.status ≢ "requested"
    → Reach schema s u
    → guard u.tables id ≡ false
unfolding guard
stale_view-guard schema s u id v named r e n later =
    let (d, grown) = Reach-append_only schema later in
    let h = Reach-IsConsistent schema s r in
    let old = view_row-has_status schema s.tables id v named h.shaped e n in
    rw grown (ground (arith, has_status-⊕ id 3 s.tables d old))
