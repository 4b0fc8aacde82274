-- ===== src/Tests/Schema.antt =====
-- A schema in memory: identifiers are any text that is not empty, "O1" being another spelling of
-- "o1" and "R1" of "r1"; the keys are those of the orders and of the acceptances.
use fast_platform_modular.Base.{
  ℕ, ◌≤◌, ◌<◌, String, ◌≡◌, refl, Bool, true, false, ◌||◌, Option, none, some, List, [], ◌∷◌, arith,
  any, count_by, any_iff-count_by, ◌==◌, eq_iff, if◌then◌else◌, Bool-cases, inl, inr, nat_eq,
}
use fast_platform_modular.Errors.{Error, pg, opaque}
use fast_platform_modular.Orders.Requesting.{ReportsDuplicates}
use fast_platform_modular.Database.{OrderRow, AcceptanceRow, Tables, ◌⊕◌, Schema}
use fast_platform_modular.Database.System.Counts.{order_count, order_count-⊕}
use fast_platform_modular.Database.System.Lifecycle.{IsKeyed}

unfoldable pub canonical : String → Option String
canonical s =
    if s == ""
    then none
    else if s == "O1"
    then some "o1"
    else if s == "R1"
    then some "r1"
    else some s

pub canonical-canonical : (s c : String) → canonical s ≡ some c → canonical c ≡ some c
unfolding canonical
canonical-canonical s c h = elim (Bool-cases (s == "")) [
  | inl empty ↦ absurd (ground arith)
  | inr filled ↦ elim (Bool-cases (s == "O1")) [
    | inl order ↦ let same : "o1" ≡ c = ground arith in rw⁻¹ same refl
    | inr no_order ↦ elim (Bool-cases (s == "R1")) [
      | inl rider ↦ let same : "r1" ≡ c = ground arith in rw⁻¹ same refl
      | inr no_rider ↦
          let same : s ≡ c = ground arith in rw⁻¹ same (rw (filled, no_order, no_rider) refl)
    ]
  ]
]

module _ {ℓ} {A : Type ℓ} (key : A → String) where
  -- Two items have one key.
  unfoldable pub repeats : List A → Bool
  repeats [] = false
  repeats (x ∷ xs) = any (λ y. key y == key x) xs || repeats xs

  repeats-count_by :
      (k : String) (xs : List A) → repeats xs ≡ false → count_by (λ x. key x == k) xs ≤ 1
  unfolding repeats count_by
  repeats-count_by k [] h = omega arith
  repeats-count_by k (x ∷ xs) h =
      ground
        (arith, repeats-count_by k xs, eq_iff (key x) k, any_iff-count_by (λ y. key y == key x) xs)

unfoldable pub violation : Tables → Option Error
unfolding repeats
violation t =
    if repeats (λ (r : OrderRow). r.id) t.orders
    then some (pg "23505" "orders_pkey" "duplicate key")
    else if repeats (λ (r : AcceptanceRow). r.order_id) t.acceptances
    then some (pg "23505" "uq_order_acceptances_order" "duplicate key")
    else none

abbrev pub status_code : ℕ → Option String
status_code n =
    if nat_eq n 1 then some "requested" else if nat_eq n 3 then some "accepted" else none

abbrev pub schema : Schema
schema = record {
  uuid_text = canonical;
  uuid_text_canonical = canonical-canonical;
  cast_error = opaque "invalid input syntax for type uuid";
  violation = violation;
  status_code = status_code;
}

pub schema-IsKeyed : IsKeyed schema
unfolding violation
schema-IsKeyed = record {
  orders = λ t o h. repeats-count_by (λ (r : OrderRow). r.id) o t.orders (ground arith);
  acceptances =
      λ t o h. repeats-count_by (λ (r : AcceptanceRow). r.order_id) o t.acceptances (ground arith);
}

repeats_twice :
    (t d : Tables) (o : String)
    → 0 < order_count o t
    → 0 < order_count o d
    → repeats (λ (r : OrderRow). r.id) (t ⊕ d).orders ≡ true
repeats_twice t d o h k = elim (Bool-cases (repeats (λ (r : OrderRow). r.id) (t ⊕ d).orders)) [
  | inl e ↦ e
  | inr e ↦ absurd (
      omega
        (arith, repeats-count_by (λ (r : OrderRow). r.id) o (t ⊕ d).orders e, order_count-⊕ o t d))
]

pub schema-ReportsDuplicates : ReportsDuplicates schema
unfolding violation
schema-ReportsDuplicates t d o e h k v =
    ("duplicate key", inl (ground (arith, repeats_twice t d o h k)))
