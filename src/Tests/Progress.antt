-- ===== src/Tests/Progress.antt =====
-- An order that can be requested and accepted under the small schema, whatever its tables hold.
use fast_platform_modular.Base.{
  ◌≡◌, refl, none, String, false, List, [], ◌∷◌, ◌++◌, count_by, any-append, append-nil, ◌==◌,
  eq_iff, arith,
}
use fast_platform_modular.Orders
use fast_platform_modular.Drivers
use fast_platform_modular.Database.{Tables, OrderRow, AcceptanceRow}
use fast_platform_modular.Database.System.{initial, here}
use fast_platform_modular.Database.System.Reachable.{IsConsistent}
use fast_platform_modular.Database.System.Lifecycle
use fast_platform_modular.Database.System.Lifecycle.{phase, absent}
use fast_platform_modular.Contract.Phases.{
  no_order, no_acceptance, absent-has_status, requested-has_status,
}
use fast_platform_modular.Contract.Progress.{CanRequest, CanAccept, CanReach, Reach-CanReach}
use fast_platform_modular.Tests.Schema.{schema, canonical, violation, repeats}
use fast_platform_modular.Tests.System.{order_input, accepted_input}

request_casts : Orders.Creating.Casts schema order_input
unfolding canonical
request_casts = record {
  id = "o1";
  rider_id = "r1";
  history_id = "h1";
  outbox_id = "x1";
  order_cast = refl;
  rider_cast = refl;
  history_cast = refl;
  outbox_cast = refl;
}

accept_casts : Drivers.Accepting.Casts schema (accepted_input "d1") "o1"
unfolding canonical
accept_casts = record {
  acceptance_id = "a1";
  driver_id = "d1";
  history_id = "h2";
  outbox_id = "x2";
  acceptance_cast = refl;
  order_cast = refl;
  driver_cast = refl;
  history_cast = refl;
  outbox_cast = refl;
}

-- The order that is requested, and its acceptance.
abbrev order_row : OrderRow
order_row = record {
  id = "o1";
  rider_id = "r1";
  pickup_latitude = 11;
  pickup_longitude = 12;
  destination_latitude = 13;
  destination_longitude = 14;
  created_at = 7;
}

abbrev acceptance_row : AcceptanceRow
acceptance_row = record { id = "a1"; order_id = "o1"; driver_id = "d1" }

module _ {ℓ} {A : Type ℓ} (key : A → String) where
  -- One more item with a new key.
  repeats_append :
      (xs : List A) (x : A)
      → repeats key xs ≡ false
      → count_by (λ y. key y == key x) xs ≡ 0
      → repeats key (xs ++ x ∷ []) ≡ false
  unfolding repeats count_by
  repeats_append [] x h k = refl
  repeats_append (y ∷ xs) x h k = ground (
    arith,
    repeats_append xs x,
    any-append (λ z. key z == key y) xs (x ∷ []),
    eq_iff (key x) (key y),
    eq_iff (key y) (key x),
  )

module _ (t : Tables) (consistent : IsConsistent t) (allowed : violation t ≡ none) where
  unrepeated :
      (repeats (λ (r : OrderRow). r.id) t.orders ≡ false)
      × (repeats (λ (r : AcceptanceRow). r.order_id) t.acceptances ≡ false)
  unfolding violation
  unrepeated = ground (arith, allowed)

  can_request : phase "o1" t ≡ absent → CanRequest schema "o1" t
  unfolding request_casts violation
  can_request e =
      let fresh = no_order "o1" t consistent (absent-has_status "o1" t e).0 in
      let orders = repeats_append (λ (r : OrderRow). r.id) t.orders order_row unrepeated.0 fresh in
      let acceptances = unrepeated.1 in
      record {
        input = order_input;
        created = 7;
        casts = request_casts;
        same = refl;
        admitted = rw (orders, append-nil t.acceptances, acceptances) refl;
      }

  can_accept : phase "o1" t ≡ Lifecycle.requested → CanAccept schema "o1" t
  unfolding accept_casts violation
  can_accept e =
      let fresh = no_acceptance "o1" t consistent (requested-has_status "o1" t e) in
      let acceptances =
        repeats_append (λ (r : AcceptanceRow). r.order_id) t.acceptances acceptance_row unrepeated.1
          fresh in
      record {
        input = accepted_input "d1";
        casts = accept_casts;
        admitted = rw (append-nil t.orders, unrepeated.0, acceptances) refl;
      }

Reach-CanReach_example : CanReach schema Lifecycle.accepted "o1" initial
unfolding violation repeats
Reach-CanReach_example = Reach-CanReach schema "o1" refl can_request can_accept initial here
