-- ===== src/Database/System.antt =====
-- The database under any number of requests at once. A statement begins: the rows that it will
-- insert are computed from the tables as they stand. Later it commits, or it fails and leaves no row:
-- the order in which pending statements end is not the order in which they began.
pub mod Counts
pub mod Invariant
pub mod Reachable
pub mod Latest
pub mod Lifecycle
pub mod Runs
use fast_platform_modular.Base.{
  ℕ, ◌+◌, ◌≤◌, ◌<◌, String, ◌≡◌, Option, none, some, List, [], ◌∷◌, ◌++◌, ◌==◌,
}
use fast_platform_modular.Orders.Models.{OrderRequestedInput}
use fast_platform_modular.Drivers.Models.{AcceptedInput}
use fast_platform_modular.Database.{Tables, no_rows, ◌⊕◌, Schema}
use fast_platform_modular.Database.Statements.{requested_rows, accepted_rows}

-- The writes: requestedSQL with its input and the time, and acceptedSQL with its input.
pub data Statement : Type 0 where
  requested : OrderRequestedInput → ℕ → Statement
  accepted : AcceptedInput → Statement

-- The statements in progress, as the rows that each will insert.
pub record State : Type 0 where
  pub tables : Tables
  pub pending : List Tables

abbrev pub initial : State
initial = record { tables = no_rows; pending = [] }

module _ (schema : Schema) where
  unfoldable pub rows_of : Statement → Tables → Option Tables
  rows_of (requested input now) t = requested_rows schema input now
  rows_of (accepted input) t = accepted_rows schema t input

  pub data Step : State → State → Type 0 where
    begin :
        (s : State) (st : Statement) (d : Tables)
        → rows_of st s.tables ≡ some d
        → Step s (record s { pending = d ∷ s.pending })
    commit :
        (s : State) (before after : List Tables) (d : Tables)
        → s.pending ≡ before ++ d ∷ after
        → schema.violation (s.tables ⊕ d) ≡ none
        → Step s (record { tables = s.tables ⊕ d; pending = before ++ after })
    fail :
        (s : State) (before after : List Tables) (d : Tables)
        → s.pending ≡ before ++ d ∷ after
        → Step s (record s { pending = before ++ after })

  pub data Reach (s : State) : State → Type 0 where
    here : Reach s s
    next : {t u : State} → Reach s t → Step t u → Reach s u
