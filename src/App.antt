-- ===== src/App.antt =====
-- cmd/platform/main.go: how `run` joins the handlers, the services, the repositories and the cache,
-- and the routes that the handlers register under /api/v1.
pub mod Leads
pub mod Consistent
pub mod Views
pub mod Cached
pub mod Honest
pub mod Transparent
pub mod Journey
pub mod Fresh
pub mod Recent
pub mod Signals
pub mod Answered
pub mod Jobs
pub mod Statuses
pub mod Wire
pub mod Once
pub mod Settled
pub mod Hidden
use fast_platform_modular.Base.{ℕ, String, Bool, Option, some, List, [], ◌∷◌}
use fast_platform_modular.Errors.{Result}
use fast_platform_modular.Runtime.{Telemetry, Call}
use fast_platform_modular.Http.{Request}
use fast_platform_modular.Database.{Tables, ◌⊕◌, Schema}
use fast_platform_modular.Database.Run.{Link}
use fast_platform_modular.Orders
use fast_platform_modular.Orders.Models.{OrderRequestedInput, OrderOutput, OrderView}
use fast_platform_modular.Orders.Service.{ViewCache}
use fast_platform_modular.Orders.Handler.{RiderService, RequestInput}
use fast_platform_modular.Drivers
use fast_platform_modular.Drivers.Models.{AcceptedInput}
use fast_platform_modular.Drivers.Repository.{Repository}
use fast_platform_modular.Drivers.Handler.{DriverService}

-- What the process works on: the tables of the database, and the state of the cache.
pub record World (C : Type 0) : Type 0 where
  pub tables : Tables
  pub cache : C

-- What the libraries give: the schema, uuid.Parse, the cache and the telemetry client.
pub record Libraries (C : Type 0) : Type 0 where
  pub schema : Schema
  pub is_uuid : String → Bool
  pub cache : Option (ViewCache C)
  pub tel : Option Telemetry

-- What one HTTP call meets: the process, the database's clock, what other statements commit between its
-- read and its write, where it has both, and how its reads and writes end.
pub record Setting : Type 0 where
  pub call : Call
  pub created : ℕ
  pub between : Tables
  pub reading : Link
  pub writing : Link

module _ {C : Type 0} (lib : Libraries C) (at : Setting) where
  -- riderService
  unfoldable pub get_view : String → World C → World C × Result OrderView
  get_view id w =
      let repository = Orders.Repository.database lib.schema at.reading at.created in
      let (cache, view) =
        Orders.Service.get lib.is_uuid repository lib.cache at.call.now id w.tables w.cache in
      (record w { cache = cache }, view)

  unfoldable pub request_order : OrderRequestedInput → World C → World C × Result OrderOutput
  request_order input w =
      let repository = Orders.Repository.database lib.schema at.writing at.created in
      let done = Orders.Service.requested repository lib.tel at.call input w.tables in
      (record w { tables = done.state }, done.result)

  abbrev pub rider_service : RiderService (World C)
  rider_service = record { requested = request_order; get = get_view }

  -- drivers.NewRepository(db), on the world: the statement begins on what others have left after the early
  -- read
  unfoldable pub store_acceptance : AcceptedInput → World C → World C × Result Drivers.Models.Order
  store_acceptance input w =
      let (tables, order) =
        Drivers.Repository.database_accepted lib.schema at.writing input (w.tables ⊕ at.between) in
      (record w { tables = tables }, order)

  -- driverService, whose reader is the rider service
  unfoldable pub accept_order :
      AcceptedInput → World C → World C × Result Drivers.Models.OrderOutput
  accept_order input w =
      let repository : Repository (World C) = record { accepted = store_acceptance } in
      let done =
        Drivers.Service.accepted lib.is_uuid repository lib.tel (some get_view) at.call input w in
      (done.state, done.result)

  abbrev pub driver_service : DriverService (World C)
  driver_service = record { accepted = accept_order }

-- The routes: POST /orders, with what the body is bound to, GET /orders/:orderId and POST
-- /orders/:orderId/accept.
pub data HttpCall : Type 0 where
  post_order : Setting → Request → Result RequestInput → HttpCall
  get_order : Setting → Request → HttpCall
  post_accept : Setting → Request → HttpCall

abbrev pub setting_of : HttpCall → Setting
setting_of (post_order at r body) = at
setting_of (get_order at r) = at
setting_of (post_accept at r) = at

-- What happens to the world from outside: a call that uses the cache, of this process or of another
-- one that shares it, or statements of others that commit between two calls.
pub data Turn : Type 0 where
  ours : HttpCall → Turn
  elsewhere : Tables → Turn

module _ {C : Type 0} (lib : Libraries C) where
  -- what one call leaves behind
  unfoldable pub serve_one : HttpCall → World C → World C
  serve_one (post_order at r body) w =
      (Orders.Handler.request lib.is_uuid (rider_service lib at) at.call r body w).0
  serve_one (get_order at r) w = (Orders.Handler.get lib.is_uuid (rider_service lib at) r w).0
  serve_one (post_accept at r) w =
      (Drivers.Handler.accept lib.is_uuid (driver_service lib at) at.call r w).0

  unfoldable pub turn : Turn → World C → World C
  unfolding serve_one
  turn (ours h) w = serve_one h w
  turn (elsewhere rows) w = record w { tables = w.tables ⊕ rows }

  unfoldable pub serve : List Turn → World C → World C
  unfolding turn
  serve [] w = w
  serve (h ∷ turns) w = serve turns (turn h w)
