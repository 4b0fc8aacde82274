-- ===== src/Database/System/Counts.antt =====
-- How many rows each table holds for one order.
use fast_platform_modular.Base.{ℕ, ◌+◌, String, ◌≡◌, ◌&&◌, count_by, count_by-append, ◌==◌, nat_eq}
use fast_platform_modular.Database.{Tables, ◌⊕◌}

module _ (o : String) where
  abbrev pub order_count : Tables → ℕ
  order_count t = count_by (λ r. r.id == o) t.orders

  abbrev pub status_count : ℕ → Tables → ℕ
  status_count status_id t =
      count_by (λ r. r.order_id == o && nat_eq r.status_id status_id) t.history

  abbrev pub acceptance_count : Tables → ℕ
  acceptance_count t = count_by (λ r. r.order_id == o) t.acceptances

  abbrev pub event_count : Tables → ℕ
  event_count t = count_by (λ r. r.aggregate_id == o) t.outbox

  pub order_count-⊕ : (t d : Tables) → order_count (t ⊕ d) ≡ order_count t + order_count d
  order_count-⊕ t d = count_by-append _ t.orders d.orders

  pub status_count-⊕ :
      (n : ℕ) (t d : Tables) → status_count n (t ⊕ d) ≡ status_count n t + status_count n d
  status_count-⊕ n t d = count_by-append _ t.history d.history

  pub acceptance_count-⊕ :
      (t d : Tables) → acceptance_count (t ⊕ d) ≡ acceptance_count t + acceptance_count d
  acceptance_count-⊕ t d = count_by-append _ t.acceptances d.acceptances

  pub event_count-⊕ : (t d : Tables) → event_count (t ⊕ d) ≡ event_count t + event_count d
  event_count-⊕ t d = count_by-append _ t.outbox d.outbox
