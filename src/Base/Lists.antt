-- ===== src/Base/Lists.antt =====
-- Lists measured by native numbers, searched by a Boolean test, and predicates on them.
use Prim.Native.Nat.{ℕ, suc, ◌+◌, ◌<◌}
use mathlib.Core.Path.{◌≡◌, refl}
use mathlib.Core.Bool.{Bool, true, false, ◌||◌}
use mathlib.Core.List.{List, [], ◌∷◌, ◌++◌}
use mathlib.Core.Logic.{◌↔◌, ◌⊎◌, inl, inr}
use native.Mathlib.Omega.{arith}
use fast_platform_modular.Base.Tests.{if◌then◌else◌}

module _ {ℓ} {A : Type ℓ} where
  abbrev pub length : List A → ℕ
  length [] = 0
  length (x ∷ xs) = suc (length xs)

  abbrev pub any : (A → Bool) → List A → Bool
  any p [] = false
  any p (x ∷ xs) = p x || any p xs

  pub length-append : (xs ys : List A) → length (xs ++ ys) ≡ length xs + length ys
  length-append [] ys = omega arith
  length-append (x ∷ xs) ys = omega (arith, length-append xs ys)

  pub any-append : (p : A → Bool) (xs ys : List A) → any p (xs ++ ys) ≡ any p xs || any p ys
  any-append p [] ys = refl
  any-append p (x ∷ xs) ys = ground (arith, any-append p xs ys)

module _ {ℓ} {A : Type ℓ} (p : A → Bool) where
  -- how many items pass the test
  unfoldable pub count_by : List A → ℕ
  count_by [] = 0
  count_by (x ∷ xs) = let rest = count_by xs in if p x then suc rest else rest

  pub count_by-append : (xs ys : List A) → count_by (xs ++ ys) ≡ count_by xs + count_by ys
  unfolding count_by
  count_by-append [] ys = omega arith
  count_by-append (x ∷ xs) ys = ground (arith, count_by-append xs ys)

  pub any_iff-count_by : (xs : List A) → (any p xs ≡ true) ↔ (0 < count_by xs)
  unfolding count_by
  any_iff-count_by [] = ground arith
  any_iff-count_by (x ∷ xs) = ground (arith, any_iff-count_by xs)

  pub count_by-eq-zero : (xs : List A) → any p xs ≡ false → count_by xs ≡ 0
  unfolding count_by
  count_by-eq-zero [] h = refl
  count_by-eq-zero (x ∷ xs) h = ground (arith, count_by-eq-zero xs)

module _ {ℓ κ} {A : Type ℓ} (P : A → Type κ) where
  abbrev pub All : List A → Type κ
  All [] = Unit
  All (x ∷ xs) = P x × All xs

  pub All-append : (xs ys : List A) → All xs → All ys → All (xs ++ ys)
  All-append [] ys _ hy = hy
  All-append (x ∷ xs) ys (px, hx) hy = (px, All-append xs ys hx hy)

module _ {ℓ} {A : Type ℓ} (P : A → Type 0) where
  -- `P` of one of the items
  abbrev pub Some : List A → Type 0
  Some [] = ⊥
  Some (x ∷ xs) = P x ⊎ Some xs

  pub Some-append_left : (xs ys : List A) → Some xs → Some (xs ++ ys)
  Some-append_left [] ys h = absurd h
  Some-append_left (x ∷ xs) ys (inl h) = inl h
  Some-append_left (x ∷ xs) ys (inr h) = inr (Some-append_left xs ys h)

  pub Some-append_right : (xs ys : List A) → Some ys → Some (xs ++ ys)
  Some-append_right [] ys h = h
  Some-append_right (x ∷ xs) ys h = inr (Some-append_right xs ys h)

pub Some-map {ℓ} :
    {A : Type ℓ} (P Q : A → Type 0) (xs : List A) → ((x : A) → P x → Q x) → Some P xs → Some Q xs
Some-map P Q [] f h = h
Some-map P Q (x ∷ xs) f (inl h) = inl (f x h)
Some-map P Q (x ∷ xs) f (inr h) = inr (Some-map P Q xs f h)

-- An item for which both hold.
pub Some-All {ℓ} :
    {A : Type ℓ} (P Q : A → Type 0) (xs : List A) → Some P xs → All Q xs → (x : A) × P x × Q x
Some-All P Q [] h all = absurd h
Some-All P Q (x ∷ xs) (inl h) (q, all) = (x, h, q)
Some-All P Q (x ∷ xs) (inr h) (q, all) = Some-All P Q xs h all

pub All-map {ℓ} :
    {A : Type ℓ} (P Q : A → Type 0) (xs : List A) → ((x : A) → P x → Q x) → All P xs → All Q xs
All-map P Q [] f h = tt
All-map P Q (x ∷ xs) f (h, all) = (f x h, All-map P Q xs f all)
