-- ===== src/App/Once.antt =====
-- An order is accepted once: POST /orders/:orderId/accept of internal/drivers/handler.go, as
-- cmd/platform/main.go joins it, among the other calls.
use mathlib.Core.Path.{subst}
use fast_platform_modular.Base.{
  String, ◌≡◌, refl, sym, ◌∙◌, true, Bool, Bool-cases, Option-cases, inl, inr, Option, none, some,
  List, [], ◌∷◌, arith,
}
use fast_platform_modular.Errors.{Result, ok, err}
use fast_platform_modular.Errors.Abort.{Abort}
use fast_platform_modular.Http.{Request, json, aborted}
use fast_platform_modular.Database.{Tables, ◌⊕◌, Schema}
use fast_platform_modular.Database.Statements.{has_status, guard}
use fast_platform_modular.Database.Run.{Link, up, lost_before, lost_after, execute, finish}
use fast_platform_modular.Database.Stale.{has_status-⊕}
use fast_platform_modular.Orders
use fast_platform_modular.Drivers
use fast_platform_modular.Drivers.Models.{OrderOutput}
use fast_platform_modular.Drivers.Handler.{DriverService, input_of, accept, respond}
use fast_platform_modular.Drivers.Winning.{accepted-won, do_accepted-Wrote}
use fast_platform_modular.Runtime.{Call}
use fast_platform_modular.App.Answered.{observed-ok}
use fast_platform_modular.App.Leads.{
  Leads, requested-Leads, accepted-Leads, request-Leads, get-Leads, accept-Leads,
}
use fast_platform_modular.App.{
  World, Libraries, Setting, get_view, request_order, store_acceptance, accept_order, rider_service,
  driver_service, post_order, get_order, post_accept, Turn, ours, elsewhere, serve_one, turn, serve,
}

-- The order has a row of its acceptance.
abbrev pub IsOver : String → Tables → Type 0
IsOver o t = has_status o 3 t.history ≡ true

-- No statement takes it away.
module _ (schema : Schema) (o : String) where
  finish-IsOver :
      (t : Tables) (rows : Option Tables) → IsOver o t → IsOver o (finish schema t rows).0
  unfolding finish
  finish-IsOver t none h = h
  finish-IsOver t (some d) h = elim (Option-cases (schema.violation (t ⊕ d))) [
    | inl fine ↦ rw (fine, finish) (has_status-⊕ o 3 t d h)
    | inr (e, bad) ↦ rw (bad, finish) h
  ]

  execute-IsOver :
      (link : Link) (rows : Tables → Option Tables) (t : Tables)
      → IsOver o t
      → IsOver o (execute schema link rows t).0
  unfolding execute
  execute-IsOver (up others) rows t h =
      finish-IsOver (t ⊕ others) (rows t) (has_status-⊕ o 3 t others h)
  execute-IsOver (lost_before e) rows t h = h
  execute-IsOver (lost_after others e) rows t h =
      finish-IsOver (t ⊕ others) (rows t) (has_status-⊕ o 3 t others h)

module _ {C : Type 0} (lib : Libraries C) (o : String) where
  abbrev pub WasAccepted : World C → Type 0
  WasAccepted w = IsOver o w.tables

  request_order-WasAccepted : (at : Setting) → Leads WasAccepted WasAccepted (request_order lib at)
  unfolding request_order Orders.Repository.database_requested
  request_order-WasAccepted at input w h =
      requested-Leads (IsOver o) (IsOver o) (λ t over. over)
        (Orders.Repository.database lib.schema at.writing at.created) lib.tel at.call input w.tables
        (λ i t over. execute-IsOver lib.schema o at.writing _ t over) h

  accept_order-WasAccepted : (at : Setting) → Leads WasAccepted WasAccepted (accept_order lib at)
  unfolding accept_order store_acceptance Drivers.Repository.database_accepted get_view
  accept_order-WasAccepted at input w h =
      accepted-Leads WasAccepted WasAccepted (λ u over. over) lib.is_uuid
        (record { accepted = store_acceptance lib at }) lib.tel (get_view lib at) at.call input w
        (λ i u over.
          execute-IsOver lib.schema o at.writing _ (u.tables ⊕ at.between)
            (has_status-⊕ o 3 u.tables at.between over))
        (λ id u over. over) h

  pub turn-WasAccepted : (h : Turn) (w : World C) → WasAccepted w → WasAccepted (turn lib h w)
  unfolding turn serve_one get_view
  turn-WasAccepted (ours (post_order at r body)) w over =
      request-Leads WasAccepted WasAccepted (λ u h. h) lib.is_uuid (rider_service lib at) at.call r
        body w (request_order-WasAccepted at) over
  turn-WasAccepted (ours (get_order at r)) w over =
      get-Leads WasAccepted WasAccepted (λ u h. h) lib.is_uuid (rider_service lib at) r w
        (λ id u h. h) over
  turn-WasAccepted (ours (post_accept at r)) w over =
      accept-Leads WasAccepted WasAccepted (λ u h. h) lib.is_uuid (driver_service lib at) at.call r
        w (accept_order-WasAccepted at) over
  turn-WasAccepted (elsewhere rows) w over = has_status-⊕ o 3 w.tables rows over

  serve-WasAccepted :
      (turns : List Turn) (w : World C) → WasAccepted w → WasAccepted (serve lib turns w)
  unfolding serve
  serve-WasAccepted [] w over = over
  serve-WasAccepted (h ∷ turns) w over =
      serve-WasAccepted turns (turn lib h w) (turn-WasAccepted h w over)

module _ {W : Type 0} (is_uuid : String → Bool) (service : DriverService W) where
  respond-json :
      (r : Request) (p : W × Result OrderOutput) (out : OrderOutput)
      → (respond r p).1 ≡ json 201 out
      → (p.1 ≡ ok out) × ((respond r p).0 ≡ p.0)
  unfolding respond
  respond-json r (w, ok a) out h = (ground (arith, h), refl)
  respond-json r (w, err e) out h = absurd (ground (arith, h))

  refused : {e : Abort} {a : OrderOutput} → ¬ (aborted e ≡ json 201 a)
  refused h = cc

  -- An acceptance that is answered with 201 was a success of the service, and leaves what that left.
  accept-json :
      (call : Call) (r : Request) (w : W) (out : OrderOutput)
      → (accept is_uuid service call r w).1 ≡ json 201 out
      → ((service.accepted (input_of call r) w).1 ≡ ok out)
        × ((accept is_uuid service call r w).0 ≡ (service.accepted (input_of call r) w).0)
  unfolding accept
  accept-json call r w out h = elim (Bool-cases (is_uuid (r.header "driver_id"))) [
    | inr bad ↦ absurd (refused (rw bad at h))
    | inl good ↦ rw good (respond-json r (service.accepted (input_of call r) w) out (rw good at h))
  ]

module _ {C : Type 0} (lib : Libraries C) where
  -- What an acceptance that is answered with 201 has found and done.
  pub accept-won :
      (at : Setting) (r : Request) (w : World C) (out : OrderOutput)
      → (accept lib.is_uuid (driver_service lib at) at.call r w).1 ≡ json 201 out
      → (order_id : String) × (lib.schema.uuid_text (r.param "orderId") ≡ some order_id)
        × (guard (w.tables ⊕ at.between) order_id ≡ true)
        × WasAccepted lib order_id (accept lib.is_uuid (driver_service lib at) at.call r w).0
  unfolding accept_order store_acceptance Drivers.Service.accepted get_view input_of
      Drivers.Service.prepared
  accept-won at r w out h =
      let (answered, same) = accept-json lib.is_uuid (driver_service lib at) at.call r w out h in
      let worked = observed-ok lib.tel _ out answered in
      let (order, stored, left) =
        do_accepted-Wrote lib.is_uuid (record { accepted = store_acceptance lib at }) at.call
          (input_of at.call r) (get_view lib at) w out worked in
      let (order_id, cast, open_before, over) =
        accepted-won lib.schema at.writing (Drivers.Service.prepared at.call (input_of at.call r))
          (w.tables ⊕ at.between) order stored in
      (order_id, cast, open_before, subst (WasAccepted lib order_id) (sym (same ∙ left)) over)

  -- An order is accepted once: after an acceptance that is answered with 201, no other of the same order is,
  -- whichever driver sends it and however the order is spelled, after any other calls, whatever other
  -- processes write, whatever the cache answers, and wherever the connection fails.
  pub accept-once :
      (at later : Setting) (r q : Request) (w : World C) (turns : List Turn) (a b : OrderOutput)
      → lib.schema.uuid_text (q.param "orderId") ≡ lib.schema.uuid_text (r.param "orderId")
      → (accept lib.is_uuid (driver_service lib at) at.call r w).1 ≡ json 201 a
      → ¬ (
          (accept lib.is_uuid
            (driver_service lib later)
            later.call
            q
            (serve lib turns (accept lib.is_uuid (driver_service lib at) at.call r w).0)).1
          ≡ json 201 b)
  unfolding guard
  accept-once at later r q w turns a b same first second =
      let before = (accept lib.is_uuid (driver_service lib at) at.call r w).0 in
      let u = serve lib turns before in
      let (o, cast, open_first, over) = accept-won at r w a first in
      let (p, cast_again, open_again, over_again) = accept-won later q u b second in
      let one : o ≡ p = ground (arith, same, cast, cast_again) in
      let closed = serve-WasAccepted lib o turns before over in
      let still : has_status p 3 (u.tables ⊕ later.between).history ≡ true =
        subst (λ x. has_status x 3 (u.tables ⊕ later.between).history ≡ true) one
          (has_status-⊕ o 3 u.tables later.between closed) in
      ground (arith, open_again, still)
