-- ===== src/App/Statuses/Storing.antt =====
-- Which typed errors come out of the two repositories: internal/orders/repository.go and
-- internal/drivers/repository.go.
use fast_platform_modular.Base.{
  ℕ, String, ◌≡◌, ◌⊎◌, inl, inr, nat_eq, Bool-cases, Option-cases, Option, none, some, List, Some,
}
use fast_platform_modular.Errors
use fast_platform_modular.Errors.{
  Error, HttpError, Result, ok, err, Result-cases, as_http, to_error, validation_error,
}
use fast_platform_modular.Errors.Codes.{as_http-to_error}
use fast_platform_modular.Database.{Tables, ◌⊕◌, Schema}
use fast_platform_modular.Database.Statements.{requested_rows, accepted_rows}
use fast_platform_modular.Database.Run.{
  Link, up, lost_before, lost_after, finish, execute, query_view, read,
}
use fast_platform_modular.Orders
use fast_platform_modular.Orders.Models.{OrderRequestedInput}
use fast_platform_modular.Drivers
use fast_platform_modular.Drivers.Models.{AcceptedInput}
use fast_platform_modular.Drivers.Repository.{not_acceptable}

-- An error without an HTTPError in its chain, or with one of the statuses.
abbrev pub Within : List ℕ → Error → Type 0
Within codes e =
    (as_http e ≡ none) ⊎ ((h : HttpError) × (as_http e ≡ some h) × Some (λ s. s ≡ h.status) codes)

abbrev pub FailsWithin : {A : Type 0} → List ℕ → Result A → Type 0
FailsWithin codes (ok a) = Unit {0}
FailsWithin codes (err e) = Within codes e

pub typed-Within :
    (codes : List ℕ) (h : HttpError) → Some (λ s. s ≡ h.status) codes → Within codes (to_error h)
typed-Within codes h m = inr (h, as_http-to_error h, m)

-- What the database reports is no HTTPError.
pub record IsUntyped (schema : Schema) : Type 0 where
  pub cast : as_http schema.cast_error ≡ none
  pub violation : (t : Tables) (e : Error) → schema.violation t ≡ some e → as_http e ≡ none

-- Nor is the error of a connection that is lost.
abbrev pub IsPlainLink : Link → Type 0
IsPlainLink (up others) = Unit {0}
IsPlainLink (lost_before e) = as_http e ≡ none
IsPlainLink (lost_after others e) = as_http e ≡ none

module _ (schema : Schema) (untyped : IsUntyped schema) where
  finish-FailsWithin :
      (codes : List ℕ) (t : Tables) (rows : Option Tables)
      → FailsWithin codes (finish schema t rows).1
  unfolding finish
  finish-FailsWithin codes t none = inl untyped.cast
  finish-FailsWithin codes t (some d) = elim (Option-cases (schema.violation (t ⊕ d))) [
    | inl fine ↦ rw (fine, FailsWithin) tt
    | inr (e, bad) ↦ rw (bad, FailsWithin) (inl (untyped.violation (t ⊕ d) e bad))
  ]

  execute-FailsWithin :
      (codes : List ℕ) (link : Link) (rows : Tables → Option Tables) (t : Tables)
      → IsPlainLink link
      → FailsWithin codes (execute schema link rows t).1
  unfolding execute
  execute-FailsWithin codes (up others) rows t plain =
      finish-FailsWithin codes (t ⊕ others) (rows t)
  execute-FailsWithin codes (lost_before e) rows t plain = inl plain
  execute-FailsWithin codes (lost_after others e) rows t plain = inl plain

  -- An error of the statement is the error of the repository.
  pub database_requested-FailsWithin :
      (codes : List ℕ) (link : Link) (created : ℕ) (input : OrderRequestedInput) (t : Tables)
      → IsPlainLink link
      → FailsWithin codes (Orders.Repository.database_requested schema link created input t).1
  unfolding Orders.Repository.database_requested
  database_requested-FailsWithin codes link created input t plain =
      let rows = λ (s : Tables). requested_rows schema input created in
      let h = execute-FailsWithin codes link rows t plain in
      elim (Result-cases (execute schema link rows t).1) [
        | inl (n, e) ↦ rw (e, FailsWithin) tt
        | inr (x, e) ↦ rw (e, FailsWithin) (rw (e, FailsWithin) at h)
      ]

  pub database_accepted-FailsWithin :
      (codes : List ℕ) (link : Link) (input : AcceptedInput) (t : Tables)
      → Some (λ s. s ≡ 409) codes
      → IsPlainLink link
      → FailsWithin codes (Drivers.Repository.database_accepted schema link input t).1
  unfolding Drivers.Repository.database_accepted Errors.new_error
  database_accepted-FailsWithin codes link input t m plain =
      let rows = λ (s : Tables). accepted_rows schema s input in
      let h = execute-FailsWithin codes link rows t plain in
      elim (Result-cases (execute schema link rows t).1) [
        | inl (n, e) ↦ elim (Bool-cases (nat_eq n 0)) [
          | inl none_written ↦
              rw (e, none_written, FailsWithin) (typed-Within codes not_acceptable m)
          | inr written ↦ rw (e, written, FailsWithin) tt
        ]
        | inr (x, e) ↦ rw (e, FailsWithin) (rw (e, FailsWithin) at h)
      ]

  pub query_view-FailsWithin :
      (codes : List ℕ) (link : Link) (id : String) (t : Tables)
      → IsPlainLink link
      → FailsWithin codes (query_view schema link id t)
  unfolding query_view read
  query_view-FailsWithin codes (up others) id t plain = elim (Option-cases (schema.uuid_text id)) [
    | inl bad ↦ rw (bad, FailsWithin) (inl untyped.cast)
    | inr (order_id, cast) ↦ rw (cast, FailsWithin) tt
  ]
  query_view-FailsWithin codes (lost_before e) id t plain = inl plain
  query_view-FailsWithin codes (lost_after others e) id t plain = inl plain
