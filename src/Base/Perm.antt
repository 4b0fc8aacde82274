-- ===== src/Base/Perm.antt =====
-- What a list gives whatever the order of its items.
use native.Mathlib.Nat.{ℕ_set}
use mathlib.Core.Bool.{Bool-set}
use mathlib.Core.List.{Perm, foldr}
use mathlib.Core.List.Perm.{foldr-eq}
use fast_platform_modular.Base.{
  ℕ, suc, Bool, false, ◌||◌, List, [], ◌∷◌, ◌≡◌, refl, sym, ap, ◌∙◌, arith, any, count_by,
  if◌then◌else◌,
}

module _ {ℓ} {A : Type ℓ} (p : A → Bool) where
  any-foldr : (xs : List A) → any p xs ≡ foldr (λ x b. p x || b) false xs
  any-foldr [] = refl
  any-foldr (x ∷ xs) = ap (λ b. p x || b) (any-foldr xs)

  -- An item that passes the test is found in any order.
  pub any-Perm : {xs ys : List A} → Perm xs ys → any p xs ≡ any p ys
  any-Perm {xs} {ys} s =
      any-foldr xs
      ∙ foldr-eq Bool-set (λ x b. p x || b) (λ x y b. ground arith) s false
      ∙ sym (any-foldr ys)

  one_more : A → ℕ → ℕ
  one_more x n = if p x then suc n else n

  count_by-foldr : (xs : List A) → count_by p xs ≡ foldr one_more 0 xs
  unfolding count_by one_more
  count_by-foldr [] = refl
  count_by-foldr (x ∷ xs) = ap (one_more x) (count_by-foldr xs)

  one_more_comm : (x y : A) (n : ℕ) → one_more x (one_more y n) ≡ one_more y (one_more x n)
  unfolding one_more
  one_more_comm x y n = ground arith

  pub count_by-Perm : {xs ys : List A} → Perm xs ys → count_by p xs ≡ count_by p ys
  count_by-Perm {xs} {ys} s =
      count_by-foldr xs ∙ foldr-eq ℕ_set one_more one_more_comm s 0 ∙ sym (count_by-foldr ys)
