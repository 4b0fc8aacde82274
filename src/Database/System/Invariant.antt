-- ===== src/Database/System/Invariant.antt =====
-- What holds of the tables, and of the rows that a statement in progress will insert, whatever the
-- interleaving.
use fast_platform_modular.Base.{
  ◌+◌, ◌<◌, String, ◌≡◌, refl, ◌⊎◌, inl, inr, true, false, ◌&&◌, some, List, [], ◌∷◌, arith, All,
  count_by, nat_eq, ◌==◌, eq_iff, if◌then◌else◌, any_iff-count_by, Bool-cases,
}
use fast_platform_modular.Drivers.Models.{AcceptedInput}
use fast_platform_modular.Database.{HistoryRow, Tables, no_rows, ◌⊕◌, Schema}
use fast_platform_modular.Database.Statements.{
  bind-eq-some, has_status, max_sequence, guard, requested_rows, accepted_rows, acceptance,
}
use fast_platform_modular.Database.System.{Statement, requested, accepted, rows_of}
use fast_platform_modular.Database.System.Counts.{
  order_count, status_count, acceptance_count, event_count, order_count-⊕, status_count-⊕,
  acceptance_count-⊕, event_count-⊕,
}

-- The only status rows: "requested" comes first, "accepted" second.
abbrev pub HasShape : HistoryRow → Type 0
HasShape r = ((r.status_id ≡ 1) × (r.sequence ≡ 1)) ⊎ ((r.status_id ≡ 3) × (r.sequence ≡ 2))

abbrev pub IsShaped : Tables → Type 0
IsShaped t = All HasShape t.history

module _ (o : String) where
  -- The rows of the order `o` belong together: an order has a first status, an acceptance has a
  -- status, and either has an event.
  pub record IsPaired (t : Tables) : Type 0 where
    pub created : order_count o t ≡ status_count o 1 t
    pub accepted : acceptance_count o t ≡ status_count o 3 t
    pub events : event_count o t ≡ order_count o t + acceptance_count o t

  -- An acceptance among the rows `d` has its order in `t`.
  abbrev pub IsBacked : Tables → Tables → Type 0
  IsBacked t d = 0 < acceptance_count o d → 0 < order_count o t

  pub IsPaired-⊕ : {t d : Tables} → IsPaired t → IsPaired d → IsPaired (t ⊕ d)
  IsPaired-⊕ {t} {d} h k = omega (
    arith,
    order_count-⊕ o t d,
    status_count-⊕ o 1 t d,
    status_count-⊕ o 3 t d,
    acceptance_count-⊕ o t d,
    event_count-⊕ o t d,
  )

  pub IsBacked-grow : (t e d : Tables) → IsBacked t d → IsBacked (t ⊕ e) d
  IsBacked-grow t e d h = λ p. omega (arith, order_count-⊕ o t e, h p)

  pub IsBacked-⊕ : (t d : Tables) → IsBacked t t → IsBacked t d → IsBacked (t ⊕ d) (t ⊕ d)
  IsBacked-⊕ t d h k = λ p. ground (arith, order_count-⊕ o t d, acceptance_count-⊕ o t d)

  max_sequence_lem :
      (rows : List HistoryRow)
      → All HasShape rows
      → has_status o 3 rows ≡ false
      → max_sequence o rows ≡ (if has_status o 1 rows then 1 else 0)
  unfolding max_sequence
  max_sequence_lem [] h k = refl
  max_sequence_lem (r ∷ rows) (h, hs) k = ground (arith, max_sequence_lem rows hs)

-- The rows of the accepted statement are none, or those of an order that passed the guard.
pub accepted_rows-cases :
    (schema : Schema) (t d : Tables) (input : AcceptedInput)
    → accepted_rows schema t input ≡ some d
    → (d ≡ no_rows)
      ⊎ ((id order_id driver_id history_id outbox_id : String) × (guard t order_id ≡ true)
          × (d ≡ acceptance t input id order_id driver_id history_id outbox_id))
unfolding accepted_rows
accepted_rows-cases schema t d input e =
    let (id, _, e1) = bind-eq-some (schema.uuid_text input.acceptance_id) _ e in
    let (order_id, _, e2) = bind-eq-some (schema.uuid_text input.order_id) _ e1 in
    let (driver_id, _, e3) = bind-eq-some (schema.uuid_text input.driver_id) _ e2 in
    let (history_id, _, e4) = bind-eq-some (schema.uuid_text input.status_history_id) _ e3 in
    let (outbox_id, _, e5) = bind-eq-some (schema.uuid_text input.outbox_id) _ e4 in
    elim (Bool-cases (guard t order_id)) [
      | inl g ↦ inr (id, order_id, driver_id, history_id, outbox_id, g, ground arith)
      | inr g ↦ inl (ground arith)
    ]

-- Behind the guard the accepted status is the second.
pub guard-max_sequence :
    (t : Tables) (o : String) → IsShaped t → guard t o ≡ true → max_sequence o t.history ≡ 1
unfolding guard
guard-max_sequence t o h g = ground (arith, max_sequence_lem o t.history h)

guard-order_count :
    (t : Tables) (o : String) → IsPaired o t → guard t o ≡ true → 0 < order_count o t
unfolding guard
guard-order_count t o h g = ground (
  arith,
  any_iff-count_by (λ (r : HistoryRow). r.order_id == o && nat_eq r.status_id 1) t.history,
)

module _ (schema : Schema) where
  pub rows_of-IsPaired :
      (o : String) (st : Statement) (t d : Tables) → rows_of schema st t ≡ some d → IsPaired o d
  unfolding rows_of requested_rows accepted_rows count_by
  rows_of-IsPaired o (requested input now) t d e = ground arith
  rows_of-IsPaired o (accepted input) t d e = ground arith

  pub rows_of-IsBacked :
      (o : String) (st : Statement) (t d : Tables)
      → IsPaired o t
      → rows_of schema st t ≡ some d
      → IsBacked o t d
  unfolding rows_of requested_rows count_by
  rows_of-IsBacked o (requested input now) t d h e = ground arith
  rows_of-IsBacked o (accepted input) t d h e = elim (accepted_rows-cases schema t d input e) [
    | inl q ↦ ground arith
    | inr (id, order_id, driver_id, history_id, outbox_id, g, q) ↦
        ground (arith, eq_iff order_id o, guard-order_count t o h)
  ]

  pub rows_of-IsShaped :
      (st : Statement) (t d : Tables) → IsShaped t → rows_of schema st t ≡ some d → IsShaped d
  unfolding rows_of requested_rows
  rows_of-IsShaped (requested input now) t d h e = ground arith
  rows_of-IsShaped (accepted input) t d h e = elim (accepted_rows-cases schema t d input e) [
    | inl q ↦ ground arith
    | inr (id, order_id, driver_id, history_id, outbox_id, g, q) ↦
        ground (arith, guard-max_sequence t order_id h g)
  ]
