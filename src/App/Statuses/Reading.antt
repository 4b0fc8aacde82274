-- ===== src/App/Statuses/Reading.antt =====
-- Which typed errors come out of Service.Get of internal/orders/service.go.
use fast_platform_modular.Base.{
  ℕ, String, ◌≡◌, ◌∙◌, refl, ◌⊎◌, inl, inr, Bool, Bool-cases, Option-cases, Option, none, some,
  List,
}
use fast_platform_modular.Errors
use fast_platform_modular.Errors.{
  Error, Result, ok, err, Result-cases, as_http, to_error, validation_error, has_code,
}
use fast_platform_modular.Orders
use fast_platform_modular.Orders.Models.{OrderView}
use fast_platform_modular.Orders.Service.{
  ViewCache, view_ttl, cache_key, not_found, found_view, unflattened,
}
use fast_platform_modular.App.Statuses.Storing.{Within, FailsWithin, typed-Within}
use fast_platform_modular.App.Statuses.Services.{reading_codes}

-- What an error of the cache says of the factory's: it is the cache's own, without an HTTPError, or it
-- carries the HTTPError of the error that the factory gave.
abbrev pub IsErrorPassing : {C : Type 0} → ViewCache C → Type 0
IsErrorPassing {C} cache =
    (now : ℕ) (key : String) (loaded : Result OrderView) (ttl : ℕ) (c : C) (e : Error)
    → (cache.get_or_set now key loaded ttl c).1 ≡ err e
    → (as_http e ≡ none) ⊎ ((x : Error) × (loaded ≡ err x) × (as_http e ≡ as_http x))

found_view-FailsWithin :
    (r : Result (Option OrderView))
    → FailsWithin reading_codes r
    → FailsWithin reading_codes (found_view r)
unfolding found_view Errors.new_error
found_view-FailsWithin (err e) h = h
found_view-FailsWithin (ok none) h = typed-Within reading_codes not_found (inr (inl refl))
found_view-FailsWithin (ok (some view)) h = tt

unflattened-FailsWithin :
    (r : Result OrderView) → FailsWithin reading_codes r → FailsWithin reading_codes (unflattened r)
unfolding unflattened Errors.new_error
unflattened-FailsWithin (ok view) h = h
unflattened-FailsWithin (err e) h = elim (Bool-cases (has_code (some e) "ORDER_NOT_FOUND")) [
  | inl missing ↦ rw (missing, FailsWithin) (typed-Within reading_codes not_found (inr (inl refl)))
  | inr other ↦ rw (other, FailsWithin) h
]

same-Within :
    (codes : List ℕ) (e x : Error) → as_http e ≡ as_http x → Within codes x → Within codes e
same-Within codes e x same (inl plain) = inl (same ∙ plain)
same-Within codes e x same (inr (h, typed, m)) = inr (h, same ∙ typed, m)

cached-FailsWithin :
    {C : Type 0} (cache : ViewCache C) (now : ℕ) (key : String) (loaded : Result OrderView)
    (ttl : ℕ) (c : C)
    → IsErrorPassing cache
    → FailsWithin reading_codes loaded
    → FailsWithin reading_codes (cache.get_or_set now key loaded ttl c).1
cached-FailsWithin cache now key loaded ttl c law h =
    elim (Result-cases (cache.get_or_set now key loaded ttl c).1) [
      | inl (view, e) ↦ rw (e, FailsWithin) tt
      | inr (x, e) ↦ elim (law now key loaded ttl c x e) [
        | inl plain ↦ rw (e, FailsWithin) (inl plain)
        | inr (y, failed, same) ↦
            rw (e, FailsWithin) (same-Within reading_codes x y same (rw (failed, FailsWithin) at h))
      ]
    ]

pub get-FailsWithin :
    {S C : Type 0} (is_uuid : String → Bool) (repository : Orders.Repository.Repository S)
    (cache : Option (ViewCache C)) (now : ℕ) (id : String) (s : S) (c : C)
    → ((x : ViewCache C) → cache ≡ some x → IsErrorPassing x)
    → FailsWithin reading_codes (repository.get id s)
    → FailsWithin reading_codes (Orders.Service.get is_uuid repository cache now id s c).1
unfolding Orders.Service.get validation_error Errors.new_error
get-FailsWithin is_uuid repository cache now id s c law h =
    let loaded = found_view-FailsWithin (repository.get id s) h in
    elim (Bool-cases (is_uuid id)) [
      | inr bad ↦ rw (bad, FailsWithin) (typed-Within reading_codes _ (inl refl))
      | inl good ↦ elim (Option-cases cache) [
        | inl missing ↦ rw (good, missing) loaded
        | inr (x, there) ↦
            rw (good, there)
              (unflattened-FailsWithin _
                (cached-FailsWithin x now (cache_key id) _ view_ttl c (law x there) loaded))
      ]
    ]
