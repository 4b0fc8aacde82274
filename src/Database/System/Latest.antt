-- ===== src/Database/System/Latest.antt =====
-- The latest history row of an order, which says its current status.
use fast_platform_modular.Base.{
  ℕ, String, ◌≡◌, refl, Option, none, some, List, [], ◌∷◌, arith, All, if◌then◌else◌, Option-cases,
  inl, inr,
}
use fast_platform_modular.Database.{HistoryRow}
use fast_platform_modular.Database.Statements.{has_status, latest}
use fast_platform_modular.Database.System.Invariant.{HasShape}

abbrev pub status_of : Option HistoryRow → Option ℕ
status_of none = none
status_of (some r) = some r.status_id

module _ (o : String) where
  latest-HasShape :
      (rows : List HistoryRow) (r : HistoryRow)
      → All HasShape rows
      → latest o rows ≡ some r
      → HasShape r
  unfolding latest
  latest-HasShape [] r h e = cc
  latest-HasShape (q ∷ rows) r (h, hs) e = elim (Option-cases (latest o rows)) [
    | inl empty ↦ ground arith
    | inr (p, found) ↦ ground (arith, latest-HasShape rows p hs found)
  ]

  -- The latest row is an acceptance if there is one, and the request otherwise.
  pub latest_status :
      (rows : List HistoryRow)
      → All HasShape rows
      → status_of (latest o rows)
        ≡ (if has_status o 3 rows then some 3 else if has_status o 1 rows then some 1 else none)
  unfolding latest
  latest_status [] h = refl
  latest_status (q ∷ rows) (h, hs) = elim (Option-cases (latest o rows)) [
    | inl empty ↦ ground (arith, latest_status rows hs)
    | inr (p, found) ↦ ground (arith, latest_status rows hs, latest-HasShape rows p hs found)
  ]
