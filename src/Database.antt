-- ===== src/Database.antt =====
-- The PostgreSQL tables that the SQL statements of internal/orders/repository.go and
-- internal/drivers/repository.go write and read. The schema is not in the repository: what depends
-- on it is the record `Schema`. The statements are in Database/Statements.antt.
pub mod Statements
pub mod Run
pub mod Stale
pub mod System
pub mod Unordered
pub mod Reordering
use fast_platform_modular.Base.{
  ℕ, ◌≤◌, String, ◌≡◌, Bool, Option, none, some, List, [], ◌∷◌, ◌++◌, any, ◌==◌, false,
}
use fast_platform_modular.Json.{Json}
use fast_platform_modular.Errors.{Error}

pub record OrderRow : Type 0 where
  pub id : String
  pub rider_id : String
  pub pickup_latitude : ℕ
  pub pickup_longitude : ℕ
  pub destination_latitude : ℕ
  pub destination_longitude : ℕ
  pub created_at : ℕ

pub record HistoryRow : Type 0 where
  pub id : String
  pub order_id : String
  pub sequence : ℕ
  pub status_id : ℕ

pub record AcceptanceRow : Type 0 where
  pub id : String
  pub order_id : String
  pub driver_id : String

pub record OutboxRow : Type 0 where
  pub id : String
  pub aggregate_type : String
  pub aggregate_id : String
  pub event_type : String
  pub event_version : ℕ
  pub payload : Json

-- The tables, and also the rows that a statement inserts; the newest row is the last.
pub record Tables : Type 0 where
  pub orders : List OrderRow
  pub history : List HistoryRow
  pub acceptances : List AcceptanceRow
  pub outbox : List OutboxRow

abbrev pub no_rows : Tables
no_rows = record { orders = []; history = []; acceptances = []; outbox = [] }

infixl 60 ◌⊕◌
abbrev pub ◌⊕◌ : Tables → Tables → Tables
t ⊕ d = record {
  orders = t.orders ++ d.orders;
  history = t.history ++ d.history;
  acceptances = t.acceptances ++ d.acceptances;
  outbox = t.outbox ++ d.outbox;
}

-- PostgreSQL and its schema: `uuid_text s` is `s::uuid::text`, `none` where the cast fails, with
-- `cast_error` the error that is reported then; `violation t` is the violation that an insertion
-- reports that would make the tables `t`; `status_code` is the table order_statuses.
pub record Schema : Type 0 where
  pub uuid_text : String → Option String
  pub uuid_text_canonical : (s c : String) → uuid_text s ≡ some c → uuid_text c ≡ some c
  pub cast_error : Error
  pub violation : Tables → Option Error
  pub status_code : ℕ → Option String
