-- ===== src/Database/System/Runs.antt =====
-- A statement whose caller waits for it, while others run, leads to a reachable state.
use fast_platform_modular.Base.{
  ◌≡◌, refl, none, some, [], ◌∷◌, arith, append-nil, append_assoc, ◌++◌, inl, inr, Option-cases,
}
use fast_platform_modular.Database.{Tables, no_rows, ◌⊕◌, Schema}
use fast_platform_modular.Database.Run.{Link, up, lost_before, lost_after, execute, finish}
use fast_platform_modular.Database.System.{
  Statement, State, rows_of, Step, fail, begin, commit, Reach, here, next,
}

abbrev pub quiet : Tables → State
quiet t = record { tables = t; pending = [] }

pub Reach-trans :
    (schema : Schema) {s t u : State} → Reach schema s t → Reach schema t u → Reach schema s u
Reach-trans schema r here = r
Reach-trans schema r (next q st) = next (Reach-trans schema r q) st

alone : (t : Tables) → t ⊕ no_rows ≡ t
alone t = simp append-nil

-- What other statements commit while this one runs: they do it by steps of the system.
abbrev pub Coexists : Schema → Link → Tables → Type 0
Coexists schema (up others) t = Reach schema (quiet t) (quiet (t ⊕ others))
Coexists schema (lost_before e) t = Unit {0}
Coexists schema (lost_after others e) t = Reach schema (quiet t) (quiet (t ⊕ others))

pub Coexists-no_rows : (schema : Schema) (t : Tables) → Coexists schema (up no_rows) t
Coexists-no_rows schema t = rw (alone t) here

-- The state with one more statement in progress, which began before the others.
abbrev beside : Tables → State → State
beside d s = record s { pending = s.pending ++ d ∷ [] }

Step-beside :
    (schema : Schema) (d : Tables) {s u : State}
    → Step schema s u
    → Step schema (beside d s) (beside d u)
Step-beside schema d (begin s st e h) = begin (beside d s) st e h
Step-beside schema d (commit s before after e h v) =
    let q : s.pending ++ d ∷ [] ≡ before ++ e ∷ (after ++ d ∷ []) =
      rw h (append_assoc before (e ∷ after) (d ∷ [])) in
    rw (append_assoc before after (d ∷ [])) (commit (beside d s) before (after ++ d ∷ []) e q v)
Step-beside schema d (fail s before after e h) =
    let q : s.pending ++ d ∷ [] ≡ before ++ e ∷ (after ++ d ∷ []) =
      rw h (append_assoc before (e ∷ after) (d ∷ [])) in
    rw (append_assoc before after (d ∷ [])) (fail (beside d s) before (after ++ d ∷ []) e q)

-- What the others do, they can do while this statement is in progress.
Reach-beside :
    (schema : Schema) (d : Tables) {s u : State}
    → Reach schema s u
    → Reach schema (beside d s) (beside d u)
Reach-beside schema d here = here
Reach-beside schema d (next r st) = next (Reach-beside schema d r) (Step-beside schema d st)

-- A statement begins, the others run, and then it commits.
commit_beside :
    (schema : Schema) (st : Statement) (t u d : Tables)
    → rows_of schema st t ≡ some d
    → Reach schema (quiet t) (quiet u)
    → schema.violation (u ⊕ d) ≡ none
    → Reach schema (quiet t) (quiet (u ⊕ d))
commit_beside schema st t u d e r v =
    next (Reach-trans schema (next here (begin (quiet t) st d e)) (Reach-beside schema d r))
      (commit (record { tables = u; pending = d ∷ [] }) [] [] d refl v)

finish-Reach :
    (schema : Schema) (st : Statement) (t u : Tables)
    → Reach schema (quiet t) (quiet u)
    → Reach schema (quiet t) (quiet (finish schema u (rows_of schema st t)).0)
unfolding finish
finish-Reach schema st t u r = elim (Option-cases (rows_of schema st t)) [
  | inl e ↦ rw e r
  | inr (d, e) ↦ elim (Option-cases (schema.violation (u ⊕ d))) [
    | inl v ↦
        let same : (finish schema u (some d)).0 ≡ u ⊕ d = ground (arith, v) in
        rw (e, same) (commit_beside schema st t u d e r v)
    | inr (x, v) ↦ let same : (finish schema u (some d)).0 ≡ u = ground (arith, v) in rw (e, same) r
  ]
]

-- Whatever becomes of the connection, and whatever other statements do meanwhile, a statement leads to a
-- reachable state.
pub execute-Reach :
    (schema : Schema) (st : Statement) (link : Link) (t : Tables)
    → Coexists schema link t
    → Reach schema (quiet t) (quiet (execute schema link (rows_of schema st) t).0)
unfolding execute
execute-Reach schema st (up others) t h = finish-Reach schema st t (t ⊕ others) h
execute-Reach schema st (lost_before e) t h = here
execute-Reach schema st (lost_after others e) t h = finish-Reach schema st t (t ⊕ others) h
