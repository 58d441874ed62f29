-- ===== src/Store/Json.antt =====
-- Values of JSONB columns that are read without a type.
use leetbattle.Shared.{String}
use leetbattle.Judge.Scoring.Types.{JsNumber}

mutual
  pub data Json : Type 0 where
    string : String → Json
    number : JsNumber → Json
    array : Items → Json
    object : Fields → Json
    scalar : Json

  pub data Items : Type 0 where
    end : Items
    item : Json → Items → Items

  pub data Fields : Type 0 where
    empty : Fields
    field : String → Json → Fields → Fields
