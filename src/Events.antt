-- ===== src/Events.antt =====
-- events/events.go: the events, their JSON texts by the tags of the fields, and their topics.
pub mod Payload
pub mod Stored
use fast_platform_modular.Base.{ℕ, String}
use fast_platform_modular.Json.{Json, integer, float, text, object, Fields, field, end}
use fast_platform_modular.Env.{Environ, string}
use fast_platform_modular.Orders.Models.{Float64}

pub record OrderRequested : Type 0 where
  pub event_id : String
  pub event_version : ℕ
  pub occurred_at : ℕ
  pub order_id : String
  pub rider_id : String
  pub pickup_latitude : Float64
  pub pickup_longitude : Float64
  pub destination_latitude : Float64
  pub destination_longitude : Float64

pub record OrderAccepted : Type 0 where
  pub event_id : String
  pub event_version : ℕ
  pub occurred_at : ℕ
  pub order_id : String
  pub driver_id : String

-- json.Marshal of each event
unfoldable pub requested_fields : OrderRequested → Fields
requested_fields e =
    (field "eventId" (text e.event_id) (
      field "eventVersion" (integer e.event_version) (
        field "occurredAt" (integer e.occurred_at) (
          field "orderId" (text e.order_id) (
            field "riderId" (text e.rider_id) (
              field "pickupLatitude" (float e.pickup_latitude) (
                field "pickupLongitude" (float e.pickup_longitude) (
                  field "destinationLatitude" (float e.destination_latitude)
                    (field "destinationLongitude" (float e.destination_longitude) end)))))))))

unfoldable pub requested_json : OrderRequested → Json
unfolding requested_fields
requested_json e = object (requested_fields e)

unfoldable pub accepted_fields : OrderAccepted → Fields
accepted_fields e =
    (field "eventId" (text e.event_id) (
      field "eventVersion" (integer e.event_version) (
        field "occurredAt" (integer e.occurred_at)
          (field "orderId" (text e.order_id) (field "driverId" (text e.driver_id) end)))))

unfoldable pub accepted_json : OrderAccepted → Json
unfolding accepted_fields
accepted_json e = object (accepted_fields e)

-- the MessageType methods
unfoldable pub requested_type : Environ → String
unfolding string
requested_type getenv = string getenv "KAFKA_TOPIC_ORDER_REQUESTED" ""

unfoldable pub accepted_type : Environ → String
unfolding string
accepted_type getenv = string getenv "KAFKA_TOPIC_ORDER_ACCEPTED" ""
