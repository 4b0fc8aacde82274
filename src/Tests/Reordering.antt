-- ===== src/Tests/Reordering.antt =====
-- The rows of a run in the opposite order.
use mathlib.Core.Bool.{Bool-set}
use mathlib.Core.List.{Perm, Permᴰ}
use mathlib.Core.List.Permᴰ.{nil, cons, swap, trans}
use mathlib.Core.Logic.{∥∥₁_elim}
use fast_platform_modular.Base.{String, ◌≡◌, refl, ◌∙◌, arith, eq_iff, ◌==◌, List, ◌∷◌, ap}
use fast_platform_modular.Base.Perm.{any-Perm}
use fast_platform_modular.Database.{OrderRow, AcceptanceRow}
use fast_platform_modular.Database.Reordering.{
  IsUnordered, onward, reorders, stored, LooseReach-Reach, Reach-LooseReach,
}
use fast_platform_modular.Database.System.{State, initial, Reach}
use fast_platform_modular.Database.Statements.{accepted_rows, view_row}
use fast_platform_modular.Drivers.Models.{AcceptedInput}
use fast_platform_modular.Tests.Schema.{schema, violation, repeats, schema-IsKeyed}
use fast_platform_modular.Tests.System.{
  closed_state, closed_state-Reach, backwards, backwards-SameRows,
}

module _ {A : Type 0} (key : A → String) where
  repeats-swap : (a b : A) (l : List A) → repeats key (a ∷ b ∷ l) ≡ repeats key (b ∷ a ∷ l)
  unfolding repeats
  repeats-swap a b l = ground (arith, eq_iff (key a) (key b), eq_iff (key b) (key a))

  repeats-Permᴰ : {xs ys : List A} → Permᴰ xs ys → repeats key xs ≡ repeats key ys
  unfolding repeats
  repeats-Permᴰ nil = refl
  repeats-Permᴰ (cons {a = a} {b = b} {l₁ = xs} {l₂ = ys} e d) =
      rw (e, any-Perm (λ y. key y == key b) {xs = xs} {ys = ys} ∣ d ∣₁, repeats-Permᴰ d) refl
  repeats-Permᴰ (swap {b = b} {a' = c} {b' = d} {l = l} e1 e2) =
      ap (λ x. repeats key (x ∷ b ∷ l)) e1
      ∙ ap (λ x. repeats key (d ∷ x ∷ l)) e2
      ∙ repeats-swap d c l
  repeats-Permᴰ (trans d e) = repeats-Permᴰ d ∙ repeats-Permᴰ e

  repeats-Perm : {xs ys : List A} → Perm xs ys → repeats key xs ≡ repeats key ys
  repeats-Perm {xs} {ys} p = ∥∥₁_elim p (Bool-set (repeats key xs) (repeats key ys)) repeats-Permᴰ

schema-IsUnordered : IsUnordered schema
unfolding violation
schema-IsUnordered t u same =
    rw
      (
        repeats-Perm (λ (r : OrderRow). r.id) same.orders,
        repeats-Perm (λ (r : AcceptanceRow). r.order_id) same.acceptances,
      )
      refl

abbrev turned : State
turned = record closed_state { tables = backwards }

LooseReach-Reach_example :
    (t : State) × Reach schema initial t
    × (stored t.tables ≡ stored turned.tables)
    × (t.pending ≡ turned.pending)
    × ((input : AcceptedInput)
        → accepted_rows schema t.tables input ≡ accepted_rows schema turned.tables input)
    × ((id : String) → view_row schema t.tables id ≡ view_row schema turned.tables id)
LooseReach-Reach_example = LooseReach-Reach schema turned schema-IsUnordered schema-IsKeyed (
    onward (Reach-LooseReach schema closed_state-Reach)
      (reorders closed_state backwards backwards-SameRows))
