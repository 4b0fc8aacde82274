-- ===== src/Contract/Progress.antt =====
-- No order is stuck: whatever statements have run and are in progress, it can be requested and accepted.
use fast_platform_modular.Base.{ℕ, String, ◌≡◌, refl, none, some, [], ◌∷◌, arith, eq_refl}
use fast_platform_modular.Orders.Models.{OrderRequestedInput}
use fast_platform_modular.Orders
use fast_platform_modular.Drivers.Models.{AcceptedInput}
use fast_platform_modular.Drivers
use fast_platform_modular.Database.{Tables, no_rows, ◌⊕◌, Schema}
use fast_platform_modular.Database.System.{
  Statement, requested, accepted, State, initial, rows_of, begin, commit, fail, Reach, here, next,
}
use fast_platform_modular.Database.System.Lifecycle
use fast_platform_modular.Database.System.Lifecycle.{Phase, phase, absent}
use fast_platform_modular.Database.System.Reachable.{IsConsistent, Reach-IsConsistent}
use fast_platform_modular.Database.System.Runs.{Reach-trans}
use fast_platform_modular.Contract.Phases.{requested-guard, absent-⊕}

-- A request for the order `o`, with a fresh identifier wherever one is needed, so that the schema admits
-- its rows in the tables `t`.
pub record CanRequest (schema : Schema) (o : String) (t : Tables) : Type 0 where
  pub input : OrderRequestedInput
  pub created : ℕ
  pub casts : Orders.Creating.Casts schema input
  pub same : casts.id ≡ o
  pub admitted : schema.violation (t ⊕ Orders.Creating.inserted schema input casts created) ≡ none

-- An acceptance of it, likewise.
pub record CanAccept (schema : Schema) (o : String) (t : Tables) : Type 0 where
  pub input : AcceptedInput
  pub casts : Drivers.Accepting.Casts schema input o
  pub admitted : schema.violation (t ⊕ Drivers.Accepting.inserted casts t) ≡ none

module _ (schema : Schema) where
  -- A statement that begins and commits while the others wait.
  store :
      (u : State) (st : Statement) (d : Tables)
      → rows_of schema st u.tables ≡ some d
      → schema.violation (u.tables ⊕ d) ≡ none
      → Reach schema u (record u { tables = u.tables ⊕ d })
  store u st d e v =
      next (next here (begin u st d e))
        (commit (record u { pending = d ∷ u.pending }) [] u.pending d refl v)

  module _ (start : schema.violation no_rows ≡ none) where
    Reach-allowed : {u : State} → Reach schema initial u → schema.violation u.tables ≡ none
    Reach-allowed here = start
    Reach-allowed (next r (begin s st d e)) = Reach-allowed r
    Reach-allowed (next r (commit s before after d e v)) = v
    Reach-allowed (next r (fail s before after d e)) = Reach-allowed r

  -- From the state `u` a state is reached in which the order is in the phase.
  abbrev pub CanReach : Phase → String → State → Type 0
  CanReach p o u = (v : State) × Reach schema u v × (phase o v.tables ≡ p)

  request_step :
      (o : String) (u : State)
      → CanRequest schema o u.tables
      → phase o u.tables ≡ absent
      → CanReach Lifecycle.requested o u
  unfolding rows_of
  request_step o u can h =
      let d = Orders.Creating.inserted schema can.input can.casts can.created in
      (
        record u { tables = u.tables ⊕ d },
        store u (requested can.input can.created) d
            (Orders.Creating.requested_rows-inserted schema can.input can.casts can.created)
            can.admitted,
        absent-⊕ o u.tables d h (ground (arith, can.same, eq_refl can.casts.id)) (ground arith),
      )

  accept_step :
      (o : String) (u : State)
      → CanAccept schema o u.tables
      → phase o u.tables ≡ Lifecycle.requested
      → CanReach Lifecycle.accepted o u
  unfolding rows_of
  accept_step o u can h =
      let d = Drivers.Accepting.inserted can.casts u.tables in
      (
        record u { tables = u.tables ⊕ d },
        store u (accepted can.input) d
            (Drivers.Accepting.accepted_rows-open schema can.input o can.casts u.tables
              (requested-guard o u.tables h))
            can.admitted,
        Drivers.Accepting.phase-inserted u.tables d o (ground (arith, eq_refl o)),
      )

  module _ (o : String) (start : schema.violation no_rows ≡ none)
      (can_request : (t : Tables)
        → IsConsistent t
        → schema.violation t ≡ none
        → phase o t ≡ absent
        → CanRequest schema o t)
      (can_accept : (t : Tables)
        → IsConsistent t
        → schema.violation t ≡ none
        → phase o t ≡ Lifecycle.requested
        → CanAccept schema o t) where
    from_phase :
        (p : Phase) (u : State)
        → Reach schema initial u
        → phase o u.tables ≡ p
        → CanReach Lifecycle.accepted o u
    from_phase Lifecycle.accepted u r e = (u, here, e)
    from_phase Lifecycle.requested u r e =
        let can = can_accept u.tables (Reach-IsConsistent schema u r) (Reach-allowed start r) e in
        accept_step o u can e
    from_phase absent u r e =
        let can = can_request u.tables (Reach-IsConsistent schema u r) (Reach-allowed start r) e in
        let (v, r', e') = request_step o u can e in
        let there = Reach-trans schema r r' in
        let can' =
          can_accept v.tables (Reach-IsConsistent schema v there) (Reach-allowed start there) e' in
        let (w, r'', e'') = accept_step o v can' e' in (w, Reach-trans schema r' r'', e'')

    -- From every state that the database reaches, with any statements in progress, a state is reached
    -- in which the order is accepted: no interleaving leaves it stuck. The empty tables satisfy the
    -- schema, and for consistent tables that do there is a request for an absent order, and an acceptance of a
    -- requested one, whose rows the schema admits.
    pub Reach-CanReach : (u : State) → Reach schema initial u → CanReach Lifecycle.accepted o u
    Reach-CanReach u r = from_phase (phase o u.tables) u r refl
