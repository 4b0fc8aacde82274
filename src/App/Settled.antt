-- ===== src/App/Settled.antt =====
-- What GET /orders/:orderId of internal/orders/handler.go shows after an acceptance: the lifetime of
-- the cached views, viewTTL of internal/orders/service.go, against the writes of
-- internal/drivers/service.go.
use mathlib.Core.Path.{subst}
use fast_platform_modular.Base.{
  ℕ, ◌+◌, ◌*◌, ◌^◌, ◌<◌, String, ◌≡◌, ◌≢◌, refl, sym, ap, ◌∙◌, ◌⊎◌, inl, inr, some, List, [], ◌∷◌,
  ◌++◌, append_assoc, arith, All, All-append, All-map, Some-All,
}
use fast_platform_modular.Http.{Request, json}
use fast_platform_modular.Orders
use fast_platform_modular.Orders.Models.{OrderView}
use fast_platform_modular.Orders.Service.{ViewCache}
use fast_platform_modular.Drivers
use fast_platform_modular.Database.Statements.{view_row}
use fast_platform_modular.Database.Stale.{view_row-over}
use fast_platform_modular.Database.System.{initial, Reach}
use fast_platform_modular.Database.System.Reachable.{Reach-IsConsistent}
use fast_platform_modular.Database.System.Runs.{quiet, Reach-trans}
use fast_platform_modular.App.{
  World, Libraries, Setting, HttpCall, rider_service, driver_service, post_accept, Turn, ours,
  elsewhere, setting_of, serve_one, turn, serve,
}
use fast_platform_modular.App.Consistent.{Interleaved, turn-Follows, serve-Follows}
use fast_platform_modular.App.Fresh.{IsTimed, Moment, moment, moments}
use fast_platform_modular.App.Recent.{WasRecent, get-recent}
use fast_platform_modular.App.Once.{IsOver, WasAccepted, turn-WasAccepted, accept-won}

module _ {C : Type 0} (lib : Libraries C) where
  serve-append :
      (xs ys : List Turn) (w : World C) → serve lib (xs ++ ys) w ≡ serve lib ys (serve lib xs w)
  unfolding serve
  serve-append [] ys w = refl
  serve-append (x ∷ xs) ys w = serve-append xs ys (turn lib x w)

  moments-append :
      (xs ys : List Turn) (w : World C)
      → moments lib (xs ++ ys) w ≡ moments lib xs w ++ moments lib ys (serve lib xs w)
  unfolding moments serve
  moments-append [] ys w = refl
  moments-append (ours h ∷ xs) ys w =
      ap (λ ms. moment (setting_of h) w ∷ ms) (moments-append xs ys (turn lib (ours h) w))
  moments-append (elsewhere rows ∷ xs) ys w = moments-append xs ys (turn lib (elsewhere rows) w)

  -- The moments up to the one of a call, and those after it.
  moments-split :
      (before after : List Turn) (h : HttpCall) (later : Setting) (w : World C)
      → (moments lib before w ++ moment (setting_of h) (serve lib before w) ∷ [])
          ++ (moments lib after (turn lib (ours h) (serve lib before w))
              ++ moment later (serve lib after (turn lib (ours h) (serve lib before w))) ∷ [])
        ≡ moments lib (before ++ ours h ∷ after) w
          ++ moment later (serve lib (before ++ ours h ∷ after) w) ∷ []
  unfolding serve moments
  moments-split before after h later w =
      let u = serve lib before w in
      let m = moment (setting_of h) u in
      let ms = moments lib after (turn lib (ours h) u) in
      let end = moment later (serve lib after (turn lib (ours h) u)) in
      rw (moments-append before (ours h ∷ after) w, serve-append before (ours h ∷ after) w)
        (append_assoc (moments lib before w) (m ∷ []) (ms ++ end ∷ [])
          ∙ sym (append_assoc (moments lib before w) (m ∷ ms) (end ∷ [])))

  Interleaved-append :
      (xs ys : List Turn) (w : World C)
      → Interleaved lib (xs ++ ys) w
      → Interleaved lib xs w × Interleaved lib ys (serve lib xs w)
  unfolding serve
  Interleaved-append [] ys w h = (tt, h)
  Interleaved-append (x ∷ xs) ys w (h, hs) =
      let (first, second) = Interleaved-append xs ys (turn lib x w) hs in ((h, first), second)

  -- The order was accepted before the moment, and the tables are reachable.
  abbrev IsLate : String → Moment → Type 0
  IsLate o m = IsOver o m.tables × Reach lib.schema initial (quiet m.tables)

  -- From an acceptance on, all moments are late.
  moments-IsLate :
      (o : String) (later : Setting) (turns : List Turn) (w : World C)
      → WasAccepted lib o w
      → Reach lib.schema initial (quiet w.tables)
      → Interleaved lib turns w
      → All (IsLate o) (moments lib turns w ++ moment later (serve lib turns w) ∷ [])
  unfolding moments serve
  moments-IsLate o later [] w over start beside = ((over, start), tt)
  moments-IsLate o later (ours h ∷ turns) w over start (now, rest) = (
    (over, start),
    moments-IsLate o later turns (turn lib (ours h) w) (turn-WasAccepted lib o (ours h) w over)
        (Reach-trans lib.schema start (turn-Follows lib (ours h) w now)) rest,
  )
  moments-IsLate o later (elsewhere rows ∷ turns) w over start (now, rest) =
      moments-IsLate o later turns (turn lib (elsewhere rows) w)
        (turn-WasAccepted lib o (elsewhere rows) w over)
        (Reach-trans lib.schema start (turn-Follows lib (elsewhere rows) w now)) rest

module _ {C : Type 0} (lib : Libraries C) (cache : ViewCache C)
    (Since : String → OrderView → ℕ → C → Type 0) (cached : lib.cache ≡ some cache)
    (law : IsTimed cache Since) where
  -- More than ten seconds before the look.
  abbrev pub IsOld : Setting → Moment → Type 0
  IsOld later m = m.time + 10 * 10 ^ 3 < later.call.now

  late-status :
      (o id : String) (later : Setting) (v : OrderView) (m : Moment)
      → lib.schema.status_code 3 ≢ some "requested"
      → lib.schema.uuid_text id ≡ some o
      → WasRecent lib cache Since cached law later id v m
      → IsOld later m ⊎ IsLate lib o m
      → v.status ≢ "requested"
  late-status o id later v m named cast (recent, shown) (inl old) =
      absurd (omega (arith, recent, old))
  late-status o id later v m named cast (recent, (p, cast', row)) (inr (over, start)) =
      let one : p ≡ o = ground (arith, cast, cast') in
      view_row-over lib.schema m.tables o v named
        (Reach-IsConsistent lib.schema (quiet m.tables) start).shaped over
        (subst (λ x. view_row lib.schema m.tables x ≡ some v) one row)

  -- More than ten seconds after an order's acceptance, which was answered with 201, and after all that
  -- came before it, GET does not show the order as requested, whatever happens in between. The process
  -- began with an empty cache, which keeps the lifetimes it is given, on reachable tables; other
  -- processes take steps of the system; status 3 has another name than "requested".
  pub get-settled :
      (before after : List Turn) (w : World C) (at later : Setting) (r q : Request)
      (out : Drivers.Models.OrderOutput) (v : OrderView)
      → ((key : String) (x : OrderView) (t : ℕ) → ¬ Since key x t w.cache)
      → Reach lib.schema initial (quiet w.tables)
      → Interleaved lib (before ++ ours (post_accept at r) ∷ after) w
      → lib.schema.status_code 3 ≢ some "requested"
      → (Drivers.Handler.accept lib.is_uuid
          (driver_service lib at)
          at.call
          r
          (serve lib before w)).1
        ≡ json 201 out
      → All (IsOld later) (moments lib before w ++ moment at (serve lib before w) ∷ [])
      → lib.schema.uuid_text (q.param "orderId") ≡ lib.schema.uuid_text (r.param "orderId")
      → (Orders.Handler.get lib.is_uuid
          (rider_service lib later)
          q
          (serve lib (before ++ ours (post_accept at r) ∷ after) w)).1
        ≡ json 200 v
      → v.status ≢ "requested"
  unfolding serve moments turn serve_one
  get-settled before after w at later r q out v empty start beside named won old same shown =
      let u = serve lib before w in
      let accepted = turn lib (ours (post_accept at r)) u in
      let turns = before ++ ours (post_accept at r) ∷ after in
      let (first, (now, rest)) = Interleaved-append lib before _ w beside in
      let (o, cast, open_before, over) = accept-won lib at r u out won in
      let reached = Reach-trans lib.schema start (serve-Follows lib before w first) in
      let reached_then =
        Reach-trans lib.schema reached (turn-Follows lib (ours (post_accept at r)) u now) in
      let late = moments-IsLate lib o later after accepted over reached_then rest in
      let either = λ (m : Moment). IsOld later m ⊎ IsLate lib o m in
      let all = subst (All either) (moments-split lib before after (post_accept at r) later w) (
        All-append either _ _ (All-map (IsOld later) either _ (λ m h. inl h) old)
          (All-map (IsLate lib o) either _ (λ m h. inr h) late)) in
      let (m, recent, known) =
        Some-All (WasRecent lib cache Since cached law later (q.param "orderId") v) either
          (moments lib turns w ++ moment later (serve lib turns w) ∷ [])
          (get-recent lib cache Since cached law turns w later q v empty shown) all in
      late-status o (q.param "orderId") later v m named (same ∙ cast) recent known
