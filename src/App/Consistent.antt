-- ===== src/App/Consistent.antt =====
-- What the HTTP calls leave in the database, one call after the other, while other processes write.
use mathlib.Core.Path.{subst}
use fast_platform_modular.Base.{◌≡◌, refl, sym, List, [], ◌∷◌}
use fast_platform_modular.Database.{Tables, no_rows, ◌⊕◌, Schema}
use fast_platform_modular.Database.System.{rows_of, Reach, here, requested, accepted}
use fast_platform_modular.Database.System.Reachable.{IsConsistent, Reach-IsConsistent}
use fast_platform_modular.Database.System.Runs.{Coexists, quiet, Reach-trans, execute-Reach}
use fast_platform_modular.Orders
use fast_platform_modular.Drivers
use fast_platform_modular.App.Leads.{
  Leads, requested-Leads, accepted-Leads, request-Leads, get-Leads, accept-Leads,
}
use fast_platform_modular.App.{
  World, Libraries, Setting, get_view, request_order, store_acceptance, accept_order, rider_service,
  driver_service, post_order, get_order, post_accept, Turn, ours, elsewhere, serve_one, turn, serve,
}

-- From the tables of one world those of the other are reached.
abbrev pub Follows : {C : Type 0} → Schema → World C → World C → Type 0
Follows schema w u = Reach schema (quiet w.tables) (quiet u.tables)

-- What other processes commit between the early read of a call and its statement, and what they commit
-- while that runs, are steps of the system.
abbrev pub RunsBeside : Schema → Setting → Tables → Type 0
RunsBeside schema at t =
    Reach schema (quiet t) (quiet (t ⊕ at.between)) × Coexists schema at.writing (t ⊕ at.between)

module _ {C : Type 0} (lib : Libraries C) (at : Setting) (w : World C) where
  -- Nothing was written yet.
  abbrev IsSame : World C → Type 0
  IsSame u = u.tables ≡ w.tables

  abbrev IsLater : World C → Type 0
  IsLater u = Follows lib.schema w u

  pub IsSame-IsLater : (u : World C) → IsSame u → IsLater u
  IsSame-IsLater u same = subst (λ t. Reach lib.schema (quiet w.tables) (quiet t)) (sym same) here

  -- The rider repository leads to reachable tables.
  pub database_requested-Reach :
      Coexists lib.schema at.writing w.tables
      → Leads
          (λ t. t ≡ w.tables)
          (λ t. Reach lib.schema (quiet w.tables) (quiet t))
          (Orders.Repository.database_requested lib.schema at.writing at.created)
  unfolding Orders.Repository.database_requested rows_of
  database_requested-Reach meanwhile input t same =
      rw same (execute-Reach lib.schema (requested input at.created) at.writing w.tables meanwhile)

  pub requested-Reach :
      Coexists lib.schema at.writing w.tables
      → (input : Orders.Models.OrderRequestedInput)
      → Reach lib.schema (quiet w.tables) (
          quiet
            (Orders.Service.requested
              (Orders.Repository.database lib.schema at.writing at.created)
              lib.tel
              at.call
              input
              w.tables).state)
  requested-Reach meanwhile input =
      requested-Leads (λ t. t ≡ w.tables) (λ t. Reach lib.schema (quiet w.tables) (quiet t))
        (λ t same. subst (λ x. Reach lib.schema (quiet w.tables) (quiet x)) (sym same) here)
        (Orders.Repository.database lib.schema at.writing at.created) lib.tel at.call input w.tables
        (database_requested-Reach meanwhile) refl

  pub request_order-Leads :
      Coexists lib.schema at.writing w.tables → Leads IsSame IsLater (request_order lib at)
  unfolding request_order
  request_order-Leads meanwhile input u same = rw same (requested-Reach meanwhile input)

  pub get_view-Leads : Leads IsSame IsSame (get_view lib at)
  unfolding get_view
  get_view-Leads id u same = same

  -- So does the driver repository.
  pub store_acceptance-Leads :
      RunsBeside lib.schema at w.tables → Leads IsSame IsLater (store_acceptance lib at)
  unfolding store_acceptance Drivers.Repository.database_accepted rows_of
  store_acceptance-Leads (first, meanwhile) input u same = rw same (
      Reach-trans lib.schema first
        (execute-Reach lib.schema (accepted input) at.writing (w.tables ⊕ at.between) meanwhile))

  accept_order-Leads :
      RunsBeside lib.schema at w.tables → Leads IsSame IsLater (accept_order lib at)
  unfolding accept_order
  accept_order-Leads beside input u same =
      accepted-Leads IsSame IsLater IsSame-IsLater lib.is_uuid
        (record { accepted = store_acceptance lib at }) lib.tel (get_view lib at) at.call input u
        (store_acceptance-Leads beside) get_view-Leads same

-- What other processes do during the call, or in its place, are steps of the system.
abbrev pub HappensBeside : {C : Type 0} → Schema → Turn → World C → Type 0
HappensBeside schema (ours (post_order at r body)) w = Coexists schema at.writing w.tables
HappensBeside schema (ours (get_order at r)) w = Unit {0}
HappensBeside schema (ours (post_accept at r)) w = RunsBeside schema at w.tables
HappensBeside schema (elsewhere rows) w = Reach schema (quiet w.tables) (quiet (w.tables ⊕ rows))

-- The same along a sequence.
abbrev pub Interleaved : {C : Type 0} → Libraries C → List Turn → World C → Type 0
Interleaved lib [] w = Unit {0}
Interleaved lib (h ∷ turns) w = HappensBeside lib.schema h w × Interleaved lib turns (turn lib h w)

module _ {C : Type 0} (lib : Libraries C) where
  pub turn-Follows :
      (h : Turn) (w : World C) → HappensBeside lib.schema h w → Follows lib.schema w (turn lib h w)
  unfolding turn serve_one get_view
  turn-Follows (ours (post_order at r body)) w beside =
      request-Leads (IsSame lib at w) (IsLater lib at w) (IsSame-IsLater lib at w) lib.is_uuid
        (rider_service lib at) at.call r body w (request_order-Leads lib at w beside) refl
  turn-Follows (ours (get_order at r)) w beside =
      get-Leads (λ u. Follows lib.schema w u) (λ u. Follows lib.schema w u) (λ u h. h) lib.is_uuid
        (rider_service lib at) r w (λ id u h. h) here
  turn-Follows (ours (post_accept at r)) w beside =
      accept-Leads (IsSame lib at w) (IsLater lib at w) (IsSame-IsLater lib at w) lib.is_uuid
        (driver_service lib at) at.call r w (accept_order-Leads lib at w beside) refl
  turn-Follows (elsewhere rows) w beside = beside

  pub serve-Follows :
      (turns : List Turn) (w : World C)
      → Interleaved lib turns w
      → Follows lib.schema w (serve lib turns w)
  unfolding serve
  serve-Follows [] w h = here
  serve-Follows (c ∷ turns) w (h, hs) =
      Reach-trans lib.schema (turn-Follows c w h) (serve-Follows turns (turn lib c w) hs)

  -- Any HTTP calls of this process, from an empty database, leave consistent tables: with failed
  -- connections, rejected requests, any cache and any telemetry client, and while statements of other
  -- processes begin and end between the calls and during them, which are steps of the system too.
  pub serve-IsConsistent :
      (turns : List Turn) (cache : C)
      → Interleaved lib turns (record { tables = no_rows; cache = cache })
      → IsConsistent (serve lib turns (record { tables = no_rows; cache = cache })).tables
  serve-IsConsistent turns cache h =
      Reach-IsConsistent lib.schema _
        (serve-Follows turns (record { tables = no_rows; cache = cache }) h)
