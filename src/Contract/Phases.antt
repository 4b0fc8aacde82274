-- ===== src/Contract/Phases.antt =====
-- Which phase the tables give an order, by the tests of the statements.
use fast_platform_modular.Base.{
  ℕ, ◌<◌, String, ◌≡◌, ◌↔◌, refl, true, false, ◌&&◌, ◌||◌, ◌⊎◌, arith, any-append, any_iff-count_by,
  nat_eq, ◌==◌,
}
use fast_platform_modular.Database.{HistoryRow, Tables, ◌⊕◌}
use fast_platform_modular.Database.Statements.{has_status, guard}
use fast_platform_modular.Database.System.Counts.{order_count, acceptance_count, status_count}
use fast_platform_modular.Database.System.Reachable.{IsConsistent}
use fast_platform_modular.Database.System.Lifecycle.{absent, requested, accepted, phase}

module _ (o : String) (t : Tables) where
  -- The guard of acceptedSQL is the test for the requested phase.
  pub guard-requested : guard t o ≡ true → phase o t ≡ requested
  unfolding guard phase
  guard-requested h = ground (arith, h)

  pub requested-guard : phase o t ≡ requested → guard t o ≡ true
  unfolding guard phase
  requested-guard h = ground (arith, h)

  pub has_status-accepted : has_status o 3 t.history ≡ true → phase o t ≡ accepted
  unfolding phase
  has_status-accepted h = rw h refl

  pub has_status-requested :
      has_status o 1 t.history ≡ true → has_status o 3 t.history ≡ false → phase o t ≡ requested
  unfolding phase
  has_status-requested h k = rw (k, h) refl

  pub has_status-absent :
      has_status o 1 t.history ≡ false → has_status o 3 t.history ≡ false → phase o t ≡ absent
  unfolding phase
  has_status-absent h k = rw (k, h) refl

  pub absent-has_status :
      phase o t ≡ absent → (has_status o 1 t.history ≡ false) × (has_status o 3 t.history ≡ false)
  unfolding phase
  absent-has_status h = ground (arith, h)

  pub requested-has_status : phase o t ≡ requested → has_status o 3 t.history ≡ false
  unfolding phase
  requested-has_status h = ground (arith, h)

  status_iff : (n : ℕ) → (has_status o n t.history ≡ true) ↔ (0 < status_count o n t)
  status_iff n =
      any_iff-count_by (λ (r : HistoryRow). r.order_id == o && nat_eq r.status_id n) t.history

  module _ (h : IsConsistent t) where
    -- No acceptance: not accepted; no order: absent.
    pub no_acceptance : has_status o 3 t.history ≡ false → acceptance_count o t ≡ 0
    no_acceptance k = ground (arith, (h.paired o).accepted, status_iff 3)

    pub some_acceptance : has_status o 3 t.history ≡ true → 0 < acceptance_count o t
    some_acceptance k = ground (arith, (h.paired o).accepted, status_iff 3)

    pub some_order :
        (has_status o 1 t.history ≡ true) ⊎ (has_status o 3 t.history ≡ true) → 0 < order_count o t
    some_order k = ground (
      arith,
      k,
      (h.paired o).created,
      (h.paired o).accepted,
      h.backed o,
      status_iff 1,
      status_iff 3,
    )

    pub no_order : has_status o 1 t.history ≡ false → order_count o t ≡ 0
    no_order k = ground (arith, (h.paired o).created, status_iff 1)

-- After the rows `d` the status is there if it was there before, or is among them.
pub has_status-⊕ :
    (o : String) (n : ℕ) (t d : Tables)
    → has_status o n (t ⊕ d).history ≡ has_status o n t.history || has_status o n d.history
has_status-⊕ o n t d =
    any-append (λ (r : HistoryRow). r.order_id == o && nat_eq r.status_id n) t.history d.history

-- The rows of a request make an absent order a requested one.
pub absent-⊕ :
    (o : String) (t d : Tables)
    → phase o t ≡ absent
    → has_status o 1 d.history ≡ true
    → has_status o 3 d.history ≡ false
    → phase o (t ⊕ d) ≡ requested
unfolding phase
absent-⊕ o t d h one three =
    rw (has_status-⊕ o 3 t d) (rw (has_status-⊕ o 1 t d) (ground (arith, h, one, three)))
