-- ===== src/Database/Reordering.antt =====
-- A storage that keeps the rows in any order and changes the order between two statements: the
-- system of Database/System.antt without the order in which its lists hold the rows.
use mathlib.Core.List.Perm
use mathlib.Core.Quot
use mathlib.Core.Quot.{Quot, Quot-set}
use fast_platform_modular.Base.{String, ◌≡◌, refl, ap, ◌∙◌, ◌∷◌, ◌++◌}
use fast_platform_modular.Drivers.Models.{AcceptedInput}
use fast_platform_modular.Database.{Tables, ◌⊕◌, Schema}
use fast_platform_modular.Database.Statements.{accepted_rows, view_row}
use fast_platform_modular.Database.Unordered.{SameRows, Reach-SameRows, accepted_rows-SameRows}
use fast_platform_modular.Database.System.{
  Statement, requested, accepted, rows_of, State, initial, Step, begin, commit, fail, Reach, here,
  next,
}
use fast_platform_modular.Database.System.Lifecycle.{IsKeyed}

-- What the tables hold, in no order.
abbrev pub Contents : Type 0
Contents = Quot SameRows

abbrev pub stored : Tables → Contents
stored t = Quot.mk t

SameRows-refl : (t : Tables) → SameRows t t
SameRows-refl t = record {
  orders = Perm.refl t.orders;
  history = Perm.refl t.history;
  acceptances = Perm.refl t.acceptances;
  outbox = Perm.refl t.outbox;
}

SameRows-trans : {t u v : Tables} → SameRows t u → SameRows u v → SameRows t v
SameRows-trans a b = record {
  orders = Perm.trans a.orders b.orders;
  history = Perm.trans a.history b.history;
  acceptances = Perm.trans a.acceptances b.acceptances;
  outbox = Perm.trans a.outbox b.outbox;
}

SameRows-⊕ : {t u : Tables} (d : Tables) → SameRows t u → SameRows (t ⊕ d) (u ⊕ d)
SameRows-⊕ d s = record {
  orders = Perm.append_right d.orders s.orders;
  history = Perm.append_right d.history s.history;
  acceptances = Perm.append_right d.acceptances s.acceptances;
  outbox = Perm.append_right d.outbox s.outbox;
}

-- A constraint is about the rows, not about their order.
abbrev pub IsUnordered : Schema → Type 0
IsUnordered schema = (t u : Tables) → SameRows t u → schema.violation t ≡ schema.violation u

module _ (schema : Schema) where
  -- A step of a statement, or a reordering of the rows.
  pub data Loose : State → State → Type 0 where
    runs : {s t : State} → Step schema s t → Loose s t
    reorders : (s : State) (u : Tables) → SameRows s.tables u → Loose s (record s { tables = u })

  pub data LooseReach (s : State) : State → Type 0 where
    still : LooseReach s s
    onward : {t u : State} → LooseReach s t → Loose t u → LooseReach s u

  rows_of-SameRows :
      (st : Statement) {t u : Tables} → SameRows t u → rows_of schema st t ≡ rows_of schema st u
  unfolding rows_of
  rows_of-SameRows (requested input now) same = refl
  rows_of-SameRows (accepted input) same = accepted_rows-SameRows schema input same

  -- The same pending statements, and the same rows.
  Matches : State → State → Type 0
  Matches s u = SameRows s.tables u.tables × (s.pending ≡ u.pending)

  module _ (unordered : IsUnordered schema) where
    Step-Matches :
        (s u v : State)
        → Matches s u
        → Step schema u v
        → (t : State) × Step schema s t × Matches t v
    unfolding Matches
    Step-Matches s u v (same, pending) (begin _ st d rows) = (
      record s { pending = d ∷ s.pending },
      begin s st d (rows_of-SameRows st same ∙ rows),
      (same, ap (λ p. d ∷ p) pending),
    )
    Step-Matches s u v (same, pending) (commit _ before after d p allowed) = (
      record { tables = s.tables ⊕ d; pending = before ++ after },
      commit s before after d (pending ∙ p)
          (unordered (s.tables ⊕ d) (u.tables ⊕ d) (SameRows-⊕ d same) ∙ allowed),
      (SameRows-⊕ d same, refl),
    )
    Step-Matches s u v (same, pending) (fail _ before after d p) =
        (record s { pending = before ++ after }, fail s before after d (pending ∙ p), (same, refl))

    LooseReach-Matches :
        (u : State) → LooseReach initial u → (t : State) × Reach schema initial t × Matches t u
    unfolding Matches
    LooseReach-Matches u still = (initial, here, (SameRows-refl initial.tables, refl))
    LooseReach-Matches u (onward {t = v} r (runs step)) =
        let (s, start, matched) = LooseReach-Matches v r in
        let (t, again, same) = Step-Matches s v u matched step in (t, next start again, same)
    LooseReach-Matches u (onward r (reorders v w moved)) =
        let (s, start, (same, pending)) = LooseReach-Matches v r in
        (s, start, (SameRows-trans same moved, pending))

  -- Whatever order the storage keeps the rows in, and however often it changes the order between two
  -- steps, the statements reach contents that they also reach in lists that only grow at their end,
  -- with the same statements in progress; there acceptedSQL inserts the same rows and viewSQL shows the
  -- same orders. The schema's constraints are about rows, not their order, and it has the two keys.
  pub LooseReach-Reach :
      (u : State)
      → IsUnordered schema
      → IsKeyed schema
      → LooseReach initial u
      → (t : State) × Reach schema initial t
        × (stored t.tables ≡ stored u.tables)
        × (t.pending ≡ u.pending)
        × ((input : AcceptedInput)
            → accepted_rows schema t.tables input ≡ accepted_rows schema u.tables input)
        × ((id : String) → view_row schema t.tables id ≡ view_row schema u.tables id)
  unfolding Matches
  LooseReach-Reach u unordered keyed r =
      let (t, start, (same, pending)) = LooseReach-Matches unordered u r in
      let (inserts, shows) = Reach-SameRows schema t u.tables keyed start same in
      (t, start, Quot.sound same, pending, inserts, shows)

  -- A run without reorderings.
  pub Reach-LooseReach : {s u : State} → Reach schema s u → LooseReach s u
  Reach-LooseReach here = still
  Reach-LooseReach (next r step) = onward (Reach-LooseReach r) (runs step)
