-- ===== src/Drivers/Models.antt =====
-- internal/drivers/models.go
use fast_platform_modular.Base.{String}
use fast_platform_modular.Json.{Json}

pub record AcceptedInput : Type 0 where
  pub order_id : String
  pub driver_id : String
  pub acceptance_id : String
  pub status_history_id : String
  pub outbox_id : String
  pub payload : Json
  pub event_type : String

pub record Order : Type 0 where
  pub id : String

pub record OrderOutput : Type 0 where
  pub id : String
