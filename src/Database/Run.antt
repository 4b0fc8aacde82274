-- ===== src/Database/Run.antt =====
-- What a caller of the SQL library sees of one statement: `execute` of the two repository files, and
-- `queryView`. The library and its connection are not in the repository: `Link` says how a call ends.
use fast_platform_modular.Base.{ℕ, String, Option, none, some, length}
use fast_platform_modular.Errors.{Error, Result, ok, err}
use fast_platform_modular.Orders.Models.{OrderView}
use fast_platform_modular.Database.{Tables, ◌⊕◌, Schema}
use fast_platform_modular.Database.Statements.{view_row}

-- `up`: the statement ends; other statements commit the given rows after it has begun and before it
-- ends. `lost_before`: the call fails before the statement runs. `lost_after`: the statement ends as
-- under `up`, and the call fails before its answer arrives.
pub data Link : Type 0 where
  up : Tables → Link
  lost_before : Error → Link
  lost_after : Tables → Error → Link

module _ (schema : Schema) where
  -- The end of a statement that inserts `d`: all rows or none. The count is that of the outermost
  -- INSERT, the one into outbox_events.
  unfoldable pub finish : Tables → Option Tables → Tables × Result ℕ
  finish t none = (t, err schema.cast_error)
  finish t (some d) = elim (schema.violation (t ⊕ d)) [
    | none ↦ (t ⊕ d, ok (length d.outbox))
    | some e ↦ (t, err e)
  ]

  -- `rows` computes what the statement inserts from the tables as they are when it begins.
  unfoldable pub execute : Link → (Tables → Option Tables) → Tables → Tables × Result ℕ
  unfolding finish
  execute (up others) rows t = finish (t ⊕ others) (rows t)
  execute (lost_before e) rows t = (t, err e)
  execute (lost_after others e) rows t = ((finish (t ⊕ others) (rows t)).0, err e)

  unfoldable pub read : Tables → Option String → Result (Option OrderView)
  read t none = err schema.cast_error
  read t (some id) = ok (view_row schema t id)

  unfoldable pub query_view : Link → String → Tables → Result (Option OrderView)
  unfolding read
  query_view (up others) id t = read t (schema.uuid_text id)
  query_view (lost_before e) id t = err e
  query_view (lost_after others e) id t = err e
