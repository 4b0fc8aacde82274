-- ===== src/App/Transparent.antt =====
-- The early check of the driver service through the cache, in a process that has served any calls.
use fast_platform_modular.Base.{
  String, ◌≡◌, refl, sym, ap, ◌∙◌, inl, inr, none, some, List, Bool-cases,
}
use fast_platform_modular.Errors.{Result, ok, err}
use fast_platform_modular.Runtime.{observed}
use fast_platform_modular.Orders.Models.{OrderView}
use fast_platform_modular.Orders.Service.{ViewCache}
use fast_platform_modular.Drivers
use fast_platform_modular.Drivers.Models.{AcceptedInput, Order}
use fast_platform_modular.Drivers.Repository.{Repository, database, database_accepted}
use fast_platform_modular.Drivers.Service.{
  answer, prepared, write, write_unless_over, is_over, rejected, do_accepted,
}
use fast_platform_modular.Drivers.Accepting.{Casts}
use fast_platform_modular.Drivers.EarlyCheck.{IsStale, write-closed, over-guard}
use fast_platform_modular.Database.{Tables, no_rows, ◌⊕◌, Schema}
use fast_platform_modular.Database.Run.{up}
use fast_platform_modular.Database.Stale.{NamesRequested}
use fast_platform_modular.Database.System.{State, Reach, here}
use fast_platform_modular.Database.System.Runs.{quiet, Reach-trans}
use fast_platform_modular.App.{
  World, Libraries, Setting, get_view, store_acceptance, accept_order, Turn, serve,
}
use fast_platform_modular.App.Consistent.{Interleaved}
use fast_platform_modular.App.Cached.{IsReadThrough, IsHonest, answered-IsStale}
use fast_platform_modular.App.Honest.{serve-IsHonest}

IsStale-later :
    {schema : Schema} {s u : State} (order_id : String) (view : Result OrderView)
    → Reach schema s u
    → IsStale schema s order_id view
    → IsStale schema u order_id view
IsStale-later {schema} order_id (ok v) r stale = record {
  before = stale.before;
  start = stale.start;
  later = Reach-trans schema stale.later r;
  seen = stale.seen;
}
IsStale-later order_id (err e) r stale = stale

-- What the service answers does not depend on the state that the repository works on.
answer-result :
    {S T : Type 0} (s : S) (t : T) (r : Result Order)
    → (answer (s, r)).result ≡ (answer (t, r)).result
unfolding answer
answer-result s t (ok order) = refl
answer-result s t (err e) = refl

module _ {C : Type 0} (lib : Libraries C) (at : Setting) (input : AcceptedInput) where
  -- The driver repository on the world.
  abbrev world_repository : Repository (World C)
  world_repository = record { accepted = store_acceptance lib at }

  write-world :
      (w : World C)
      → (write lib.is_uuid world_repository at.call input w).result
        ≡ (write lib.is_uuid
            (database lib.schema at.writing)
            at.call
            input
            (w.tables ⊕ at.between)).result
  unfolding write store_acceptance
  write-world w =
      answer-result _ _
        (database_accepted lib.schema at.writing (prepared at.call input) (w.tables ⊕ at.between)).1

  get_view-tables : (id : String) (w : World C) → (get_view lib at id w).0.tables ≡ w.tables
  unfolding get_view
  get_view-tables id w = refl

  module _ (order_id : String) (others : Tables) (writing : at.writing ≡ up others)
      (casts : Casts lib.schema (prepared at.call input) order_id)
      (named : NamesRequested lib.schema) where
    write_unless_over-world :
        (w w' : World C) (view : Result OrderView)
        → IsStale lib.schema (quiet (w.tables ⊕ at.between)) order_id view
        → w'.tables ≡ w.tables
        → lib.schema.violation (w.tables ⊕ at.between ⊕ others) ≡ none
        → (write_unless_over lib.is_uuid world_repository at.call input (w', view)).result
          ≡ (write lib.is_uuid
              (database lib.schema at.writing)
              at.call
              input
              (w.tables ⊕ at.between)).result
    unfolding write_unless_over rejected
    write_unless_over-world w w' view stale same allowed = elim (Bool-cases (is_over view)) [
      | inl over ↦
          let shut =
            over-guard lib.schema lib.is_uuid at.call input order_id others casts
              (quiet (w.tables ⊕ at.between)) view named stale over in
          rw (over, writing)
            (sym (
              write-closed lib.schema lib.is_uuid at.call input order_id others casts
                (w.tables ⊕ at.between) shut allowed))
      | inr still_open ↦ rw still_open (
          write-world w'
          ∙ ap
              (λ t.
                (write lib.is_uuid (database lib.schema at.writing) at.call input
                  (t ⊕ at.between)).result)
              same)
    ]

    module _ (cache : ViewCache C) (Stored : String → OrderView → C → Type 0)
        (cached : lib.cache ≡ some cache) (law : IsReadThrough cache Stored) where
      do_accepted-world :
          (w : World C)
          → IsHonest lib.schema Stored w
          → Reach lib.schema (quiet w.tables) (quiet (w.tables ⊕ at.between))
          → lib.schema.violation (w.tables ⊕ at.between ⊕ others) ≡ none
          → (do_accepted lib.is_uuid world_repository
              (some (get_view lib at))
              at.call
              input
              w).result
            ≡ (do_accepted lib.is_uuid
                (database lib.schema at.writing)
                none
                at.call
                input
                (w.tables ⊕ at.between)).result
      unfolding do_accepted rejected prepared
      do_accepted-world w h beside allowed = elim (Bool-cases (lib.is_uuid input.order_id)) [
        | inr bad ↦ rw bad refl
        | inl good ↦ elim (Bool-cases (lib.is_uuid input.driver_id)) [
          | inr bad ↦ rw (good, bad) refl
          | inl fine ↦
              let got = get_view lib at input.order_id w in
              rw (good, fine)
                (write_unless_over-world w got.0 got.1
                  (IsStale-later order_id got.1 beside (
                    answered-IsStale lib cache Stored cached law at input.order_id order_id w got.1
                      h casts.order_cast refl))
                  (get_view-tables input.order_id w) allowed)
        ]
      ]

      -- After any calls of a process whose cache was empty at first, and any writes of other processes
      -- between and during them, the answer to an acceptance is the one that the SQL statement alone
      -- would give, on the tables as they are when it begins: the view that the early check reads through
      -- the cache before, however old, never changes it. The cache is a read-through one, and the
      -- connection works for this call; its identifiers are ones that PostgreSQL takes, what other
      -- processes commit between the early check and the statement they commit by steps of the system,
      -- and what is committed while the statement runs satisfies the schema, whose status 1 is named
      -- "requested".
      pub accept_order-transparent :
          (turns : List Turn) (empty : C)
          → ((key : String) (v : OrderView) → ¬ Stored key v empty)
          → Interleaved lib turns (record { tables = no_rows; cache = empty })
          → Reach lib.schema
              (quiet (serve lib turns (record { tables = no_rows; cache = empty })).tables)
              (quiet (
                (serve lib turns (record { tables = no_rows; cache = empty })).tables ⊕ at.between))
          → lib.schema.violation (
              (serve lib turns (record { tables = no_rows; cache = empty })).tables
              ⊕ at.between
              ⊕ others)
            ≡ none
          → (accept_order lib at input
              (serve lib turns (record { tables = no_rows; cache = empty }))).1
            ≡ observed lib.tel
                (do_accepted lib.is_uuid (database lib.schema at.writing) none at.call input (
                  (serve lib turns (record { tables = no_rows; cache = empty })).tables
                  ⊕ at.between)).result
      unfolding accept_order Drivers.Service.accepted
      accept_order-transparent turns empty none_stored beside first allowed =
          let start : IsHonest lib.schema Stored (record { tables = no_rows; cache = empty }) =
            record { start = here; seen = λ key v stored. absurd (none_stored key v stored) } in
          let h =
            serve-IsHonest lib cache Stored cached law turns
              (record { tables = no_rows; cache = empty }) beside start in
          ap (observed lib.tel) (do_accepted-world _ h first allowed)
