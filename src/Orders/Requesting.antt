-- ===== src/Orders/Requesting.antt =====
-- doRequested and Service.Requested, over any repository.
use fast_platform_modular.Base.{
  ℕ, String, ◌≡◌, ◌≢◌, refl, true, none, some, arith, trim_space, eq_iff, eq_refl, ◌⊎◌, ◌<◌,
  count_by, ap, ◌∙◌, Option-cases, inl, inr, if◌then◌else◌,
}
use fast_platform_modular.Errors.{
  Error, http, pg, Result, ok, err, to_error, is_client_error, validation_error, new_error,
}
use fast_platform_modular.Runtime.{Telemetry, Call, observed}
use fast_platform_modular.Orders.Models.{Order, OrderRequestedInput, OrderOutput}
use fast_platform_modular.Orders.Repository.{Repository, database, database_requested}
use fast_platform_modular.Orders.Creating.{
  Casts, inserted, sent, requested_lem, requested-duplicate,
}
use fast_platform_modular.Orders.Reading.{new_view, view_row-requested}
use fast_platform_modular.Database.{Tables, ◌⊕◌, Schema}
use fast_platform_modular.Database.Statements.{view_row}
use fast_platform_modular.Database.Run.{up}
use fast_platform_modular.Database.Stale.{NamesRequested}
use fast_platform_modular.Database.System.Counts.{order_count}
use fast_platform_modular.Database.System.Reachable.{IsConsistent}
use fast_platform_modular.Database.System.Lifecycle.{IsKeyed}
use fast_platform_modular.Orders.Service.{
  answer, as_pg, is_duplicate, is_duplicate_order, prepared, output, do_requested,
}

-- A telemetry client does not change what the caller gets, if it reports no failure for a job that
-- returned no error: a rejection that the job does not count is still returned.
observed_transparent {ℓ} :
    {A : Type ℓ} (tel : Telemetry) (r : Result A)
    → tel.worker_context none ≡ none
    → observed (some tel) r ≡ observed none r
unfolding observed is_client_error
observed_transparent tel r h = ground arith

-- A blank identifier is refused before the repository is asked.
do_requested-blank :
    {S : Type 0} (repository : Repository S) (call : Call) (input : OrderRequestedInput) (s : S)
    → (trim_space input.id ≡ "") ⊎ (trim_space input.rider_id ≡ "")
    → do_requested repository call input s ≡ record {
      state = s;
      label = "validation_error";
      result = err (to_error (validation_error "ride" "id and rider_id are required"));
    }
unfolding do_requested
do_requested-blank repository call input s h =
    ground (arith, eq_iff (trim_space input.id) "", eq_iff (trim_space input.rider_id) "")

-- Identifiers that hold more than white space.
pub record IsFilled (input : OrderRequestedInput) : Type 0 where
  pub id : trim_space input.id ≢ ""
  pub rider_id : trim_space input.rider_id ≢ ""

do_requested-filled :
    {S : Type 0} (repository : Repository S) (call : Call) (input : OrderRequestedInput) (s : S)
    → IsFilled input
    → do_requested repository call input s ≡ answer (repository.requested (prepared call input) s)
unfolding do_requested
do_requested-filled repository call input s h = ground (
  arith,
  eq_iff (trim_space input.id) "",
  eq_iff (trim_space input.rider_id) "",
  h.id,
  h.rider_id,
)

-- The violation of one of the two keys that a second insertion of an order may hit first.
abbrev IsReport : Error → Type 0
IsReport e =
    (message : String) × ((e ≡ pg "23505" "orders_pkey" message)
      ⊎ (e ≡ pg "23505" "order_status_history_order_id_sequence_key" message))

-- So PostgreSQL reports the second insertion of an order.
abbrev pub ReportsDuplicates : Schema → Type 0
ReportsDuplicates schema =
    (t d : Tables) (o : String) (e : Error)
    → 0 < order_count o t
    → 0 < order_count o d
    → schema.violation (t ⊕ d) ≡ some e
    → IsReport e

is_duplicate-IsReport : (e : Error) → IsReport e → is_duplicate (as_pg e) ≡ true
unfolding is_duplicate as_pg is_duplicate_order
is_duplicate-IsReport e (message, r) = ground arith

answer-ok :
    {S : Type 0} (p : S × Result Order) (out : OrderOutput)
    → (answer p).result ≡ ok out
    → (order : Order) × (p ≡ (p.0, ok order)) × (out ≡ output order) × ((answer p).state ≡ p.0)
unfolding answer
answer-ok (s, ok order) out e = (order, refl, ground arith, refl)
answer-ok (s, err x) out e = ground arith

module _ (schema : Schema) (call : Call) (input : OrderRequestedInput) (created : ℕ)
    (t others : Tables) (filled : IsFilled input) (c : Casts schema (prepared call input)) where
  -- A request that reaches the database and is not blank, with identifiers that PostgreSQL takes, writes the order, its first
  -- status and its event together and answers with the order, where the schema allows the rows. Else
  -- it writes none of them, and a violation of a key of the order is the caller's conflict.
  pub do_requested-stored :
      do_requested (database schema (up others) created) call input t
      ≡ elim (schema.violation (t ⊕ others ⊕ inserted schema (prepared call input) c created)) [
        | none ↦ record {
          state = t ⊕ others ⊕ inserted schema (prepared call input) c created;
          label = "success";
          result = ok (output (sent schema (prepared call input) c created));
        }
        | some e ↦
            if is_duplicate (as_pg e)
            then record {
              state = t ⊕ others;
              label = "conflict";
              result = err (http 409 "ORDER_ALREADY_EXISTS" "an order with this id already exists");
            }
            else record { state = t ⊕ others; label = "error"; result = err e }
      ]
  unfolding answer to_error new_error
  do_requested-stored =
      let asked = do_requested-filled (database schema (up others) created) call input t filled in
      let stored = requested_lem schema (prepared call input) c created t others in
      elim (Option-cases
        (schema.violation (t ⊕ others ⊕ inserted schema (prepared call input) c created))) [
          | inl v ↦ rw (asked, stored, v) refl
          | inr (e, v) ↦ rw (asked, stored, v) refl
        ]

  -- A request that is not blank, with the id of an order that is there, is the caller's conflict, 409
  -- ORDER_ALREADY_EXISTS, and writes nothing. The casts of its identifiers succeed, the call reaches
  -- the database, the schema has the keys of `IsKeyed`, and it reports them as `ReportsDuplicates`
  -- says.
  pub do_requested-exists :
      IsKeyed schema
      → ReportsDuplicates schema
      → 0 < order_count c.id (t ⊕ others)
      → do_requested (database schema (up others) created) call input t ≡ record {
        state = t ⊕ others;
        label = "conflict";
        result = err (http 409 "ORDER_ALREADY_EXISTS" "an order with this id already exists");
      }
  unfolding answer to_error new_error count_by
  do_requested-exists keyed reports h =
      let (e, refused, v) =
        requested-duplicate schema (prepared call input) c created t others keyed h in
      let named = is_duplicate-IsReport e (
        reports (t ⊕ others) (inserted schema (prepared call input) c created) c.id e h
          (ground (arith, eq_refl c.id)) v) in
      rw
        (
          do_requested-filled (database schema (up others) created) call input t filled,
          refused,
          named,
        )
        refl

  -- A request that succeeds answers with the order as it was sent, and the order can be read: it has
  -- the rider and the coordinates that were sent, and the status "requested". The call reaches the
  -- database, whose tables are consistent before; the schema has the keys of `IsKeyed` and names
  -- status 1 "requested".
  pub do_requested-created :
      (out : OrderOutput)
      → IsKeyed schema
      → NamesRequested schema
      → IsConsistent (t ⊕ others)
      → (do_requested (database schema (up others) created) call input t).result ≡ ok out
      → (out ≡ output (sent schema (prepared call input) c created))
        × (view_row schema
              (do_requested (database schema (up others) created) call input t).state
              c.id
            ≡ some (new_view c created))
  do_requested-created out keyed named h e =
      let asked = do_requested-filled (database schema (up others) created) call input t filled in
      let stored = database_requested schema (up others) created (prepared call input) t in
      let (order, eq, same, state) = answer-ok stored out (rw asked at e) in
      let (order_eq, seen) =
        view_row-requested schema (prepared call input) c created t others stored.0 order keyed
          named h eq in
      rw asked (same ∙ ap output order_eq, rw state seen)
