-- ===== src/Database/System/Reachable.antt =====
-- Every reachable state of the database is consistent, and rows are only ever added.
use fast_platform_modular.Base.{
  String, ◌≡◌, refl, ap, ◌∙◌, some, List, [], ◌∷◌, ◌++◌, arith, All, All-append, append_assoc,
  append-nil, count_by,
}
use fast_platform_modular.Database.{Tables, no_rows, ◌⊕◌, Schema}
use fast_platform_modular.Database.System.{
  Statement, State, initial, rows_of, Step, begin, commit, fail, Reach, here, next,
}
use fast_platform_modular.Database.System.Invariant.{
  HasShape, IsShaped, IsPaired, IsBacked, IsPaired-⊕, IsBacked-⊕, IsBacked-grow, rows_of-IsPaired,
  rows_of-IsBacked, rows_of-IsShaped,
}

-- What is true of the tables.
pub record IsConsistent (t : Tables) : Type 0 where
  pub paired : (o : String) → IsPaired o t
  pub backed : (o : String) → IsBacked o t t
  pub shaped : IsShaped t

-- What is true of rows that wait for their commit.
pub record IsPlanned (t d : Tables) : Type 0 where
  pub paired : (o : String) → IsPaired o d
  pub backed : (o : String) → IsBacked o t d
  pub shaped : IsShaped d

pub record IsSound (s : State) : Type 0 where
  pub tables : IsConsistent s.tables
  pub pending : All (IsPlanned s.tables) s.pending

IsConsistent-⊕ : {t d : Tables} → IsConsistent t → IsPlanned t d → IsConsistent (t ⊕ d)
IsConsistent-⊕ {t} {d} h k = record {
  paired = λ o. IsPaired-⊕ o (h.paired o) (k.paired o);
  backed = λ o. IsBacked-⊕ o t d (h.backed o) (k.backed o);
  shaped = All-append HasShape t.history d.history h.shaped k.shaped;
}

IsPlanned-grow : (t e d : Tables) → IsPlanned t d → IsPlanned (t ⊕ e) d
IsPlanned-grow t e d k = record {
  paired = k.paired;
  backed = λ o. IsBacked-grow o t e d (k.backed o);
  shaped = k.shaped;
}

All-IsPlanned-grow :
    (t e : Tables) (ds : List Tables) → All (IsPlanned t) ds → All (IsPlanned (t ⊕ e)) ds
All-IsPlanned-grow t e [] h = tt
All-IsPlanned-grow t e (d ∷ ds) (h, hs) = (IsPlanned-grow t e d h, All-IsPlanned-grow t e ds hs)

-- A pending statement can be taken out.
pub All-split {ℓ κ} :
    {A : Type ℓ} (P : A → Type κ) (xs : List A) (y : A) (zs : List A)
    → All P (xs ++ y ∷ zs)
    → P y × All P (xs ++ zs)
All-split P [] y zs h = h
All-split P (x ∷ xs) y zs (p, h) = let (q, r) = All-split P xs y zs h in (q, (p, r))

rows_of-IsPlanned :
    (schema : Schema) (st : Statement) (t d : Tables)
    → IsConsistent t
    → rows_of schema st t ≡ some d
    → IsPlanned t d
rows_of-IsPlanned schema st t d h e = record {
  paired = λ o. rows_of-IsPaired schema o st t d e;
  backed = λ o. rows_of-IsBacked schema o st t d (h.paired o) e;
  shaped = rows_of-IsShaped schema st t d h.shaped e;
}

Step-IsSound : (schema : Schema) {s u : State} → Step schema s u → IsSound s → IsSound u
Step-IsSound schema (begin s st d e) h = record {
  tables = h.tables;
  pending = (rows_of-IsPlanned schema st s.tables d h.tables e, h.pending);
}
Step-IsSound schema (commit s before after d e v) h =
    let split = All-split (IsPlanned s.tables) before d after (rw e at h.pending) in
    record {
      tables = IsConsistent-⊕ h.tables split.0;
      pending = All-IsPlanned-grow s.tables d (before ++ after) split.1;
    }
Step-IsSound schema (fail s before after d e) h = record {
  tables = h.tables;
  pending = (All-split (IsPlanned s.tables) before d after (rw e at h.pending)).1;
}

pub Reach-IsSound : (schema : Schema) {s u : State} → IsSound s → Reach schema s u → IsSound u
Reach-IsSound schema h here = h
Reach-IsSound schema h (next r st) = Step-IsSound schema st (Reach-IsSound schema h r)

pub initial-IsSound : IsSound initial
unfolding count_by
initial-IsSound = record {
  tables = record { paired = λ o. omega arith; backed = λ o. omega arith; shaped = tt };
  pending = tt;
}

-- Under any interleaving of requests and acceptances, every order in the tables has its first status and
-- its event, every acceptance its status, its event and its order, and no other rows are there.
pub Reach-IsConsistent :
    (schema : Schema) (u : State) → Reach schema initial u → IsConsistent u.tables
Reach-IsConsistent schema u r = (Reach-IsSound schema initial-IsSound r).tables

⊕_assoc : (t d e : Tables) → (t ⊕ d) ⊕ e ≡ t ⊕ (d ⊕ e)
⊕_assoc t d e = simp append_assoc

no_rows-right : (t : Tables) → t ≡ t ⊕ no_rows
no_rows-right t = simp append-nil

Step-append_only :
    (schema : Schema) {s u : State} → Step schema s u → (d : Tables) × (u.tables ≡ s.tables ⊕ d)
Step-append_only schema (begin s st d e) = (no_rows, no_rows-right s.tables)
Step-append_only schema (commit s before after d e v) = (d, refl)
Step-append_only schema (fail s before after d e) = (no_rows, no_rows-right s.tables)

-- The tables are append-only: whatever statements run, the earlier rows stay, in place.
pub Reach-append_only :
    (schema : Schema) {s u : State} → Reach schema s u → (d : Tables) × (u.tables ≡ s.tables ⊕ d)
Reach-append_only schema {s} here = (no_rows, no_rows-right s.tables)
Reach-append_only schema {s} (next r st) =
    let (d, e) = Reach-append_only schema r in
    let (d', e') = Step-append_only schema st in
    (d ⊕ d', e' ∙ ap (λ t. t ⊕ d') e ∙ ⊕_assoc s.tables d d')
