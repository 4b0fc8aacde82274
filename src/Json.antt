-- ===== src/Json.antt =====
-- The JSON values that pass through the outbox: what a text denotes to encoding/json, the order of
-- an object's members included. A number is kept as its literal, or as the bits of a float64.
use fast_platform_modular.Base.{ℕ, String}

mutual
  pub data Json : Type 0 where
    null : Json
    integer : ℕ → Json
    float : ℕ → Json
    text : String → Json
    array : Items → Json
    object : Fields → Json

  pub data Items : Type 0 where
    nil : Items
    item : Json → Items → Items

  pub data Fields : Type 0 where
    end : Fields
    field : String → Json → Fields → Fields
