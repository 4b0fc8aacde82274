-- ===== src/Database/Unordered/Found.antt =====
-- The order that a statement finds by its id is the same in any order of the rows.
use native.Mathlib.Bridge.{le_prop}
use mathlib.Core.List.{Perm, Mem, Memᴰ}
use mathlib.Core.List.Perm.{mem_iff}
use mathlib.Core.List.{not-mem-nil, eq-or-mem_of_mem-cons, mem-cons_of_mem}
use mathlib.Core.Logic.Or
use mathlib.Core.HLevel.{hedberg}
use fast_platform_modular.Base.{
  ℕ, ◌≤◌, ◌<◌, String, ◌≡◌, sym, ap, ◌∙◌, ◌==◌, some, List, [], ◌∷◌, arith, count_by, if◌then◌else◌,
  eq_iff, Bool-cases, Option-cases, inl, inr,
}
use fast_platform_modular.Base.Perm.{count_by-Perm}
use fast_platform_modular.Database.{OrderRow}
use fast_platform_modular.Database.Statements.{find_order}

same_text : (a b : String) → Dec (a ≡ b)
same_text a b = elim (Bool-cases (a == b)) [
  | inl e ↦ yes ((eq_iff a b).0 e)
  | inr e ↦ no (λ same. ground (arith, eq_iff a b, same))
]

String-set : IsSet String
String-set = hedberg same_text

module _ (o : String) where
  -- A row with the id is the one found, if there is one at most.
  found-Mem :
      (rows : List OrderRow) (r : OrderRow) → find_order o rows ≡ some r → Mem r rows × (r.id ≡ o)
  unfolding find_order
  found-Mem [] r e = cc
  found-Mem (q ∷ rows) r e = elim (Bool-cases (q.id == o)) [
    | inl hit ↦
        let same : q ≡ r = ground (arith, e, hit) in
        (∣ Memᴰ.head (sym same) ∣₁, ap (λ (x : OrderRow). x.id) (sym same) ∙ (eq_iff q.id o).0 hit)
    | inr miss ↦
        let (m, is_o) = found-Mem rows r (ground (arith, e, miss)) in (mem-cons_of_mem q m, is_o)
  ]

  unfoldable pub count : List OrderRow → ℕ
  count rows = count_by (λ (q : OrderRow). q.id == o) rows

  counted : (rows : List OrderRow) (r : OrderRow) → Mem r rows → r.id ≡ o → 0 < count rows
  unfolding count count_by
  counted [] r m e = absurd (not-mem-nil m)
  counted (q ∷ rows) r m e =
      Or.«elim» le_prop (eq-or-mem_of_mem-cons m)
        (λ same.
          let is_o : q.id ≡ o = ap (λ (x : OrderRow). x.id) (sym same) ∙ e in
          ground (arith, is_o, eq_iff q.id o))
        (λ later. ground (arith, counted rows r later e))

  Mem-found :
      (rows : List OrderRow) (r : OrderRow)
      → Mem r rows
      → r.id ≡ o
      → count rows ≤ 1
      → find_order o rows ≡ some r
  unfolding find_order count count_by
  Mem-found [] r m e h = absurd (not-mem-nil m)
  Mem-found (q ∷ rows) r m e h =
      Or.«elim» (hlevel (String-set)) (eq-or-mem_of_mem-cons m)
        (λ same.
          let is_o : q.id ≡ o = ap (λ (x : OrderRow). x.id) (sym same) ∙ e in
          ap (λ b. if b then some q else find_order o rows) ((eq_iff q.id o).1 is_o)
          ∙ ap some (sym same))
        (λ further.
          let more : 0 < count rows = counted rows r further e in
          ground (arith, more, Mem-found rows r further e))

  pub find_order-Perm :
      {xs ys : List OrderRow} → Perm xs ys → count xs ≤ 1 → find_order o xs ≡ find_order o ys
  unfolding count
  find_order-Perm {xs} {ys} s h =
      let fewer : count ys ≤ 1 = rw (sym (count_by-Perm (λ (q : OrderRow). q.id == o) s)) h in
      elim (Option-cases (find_order o xs)) [
        | inl missing ↦ elim (Option-cases (find_order o ys)) [
          | inl missing' ↦ missing ∙ sym missing'
          | inr (r, e) ↦
              let (m, is_o) = found-Mem ys r e in Mem-found xs r ((mem_iff s).1 m) is_o h ∙ sym e
        ]
        | inr (r, e) ↦
            let (m, is_o) = found-Mem xs r e in
            e ∙ sym (Mem-found ys r ((mem_iff s).0 m) is_o fewer)
      ]
