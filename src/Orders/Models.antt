-- ===== src/Orders/Models.antt =====
-- internal/orders/models.go. A float64 is the number of its bits: the code only copies coordinates.
use fast_platform_modular.Base.{ℕ, String}
use fast_platform_modular.Json.{Json}

abbrev pub Float64 : Type 0
Float64 = ℕ

pub record Order : Type 0 where
  pub id : String
  pub rider_id : String
  pub pickup_latitude : Float64
  pub pickup_longitude : Float64
  pub destination_latitude : Float64
  pub destination_longitude : Float64

pub record OrderRequestedInput : Type 0 where
  pub id : String
  pub rider_id : String
  pub pickup_latitude : Float64
  pub pickup_longitude : Float64
  pub destination_latitude : Float64
  pub destination_longitude : Float64
  pub status_history_id : String
  pub outbox_id : String
  pub payload : Json
  pub event_type : String

pub record OrderOutput : Type 0 where
  pub id : String
  pub rider_id : String
  pub pickup_latitude : Float64
  pub pickup_longitude : Float64
  pub destination_latitude : Float64
  pub destination_longitude : Float64

-- `created_at` is a time in milliseconds.
pub record OrderView : Type 0 where
  pub id : String
  pub rider_id : String
  pub pickup_latitude : Float64
  pub pickup_longitude : Float64
  pub destination_latitude : Float64
  pub destination_longitude : Float64
  pub status : String
  pub created_at : ℕ
