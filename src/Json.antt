-- ===== src/Json.antt =====
-- The JSON values that the code builds, for nlohmann::json: the fields of an object in the order in
-- which the code assigns them. Printing and parsing are the library's, and stay parameters.
use quant_core_engine.Prelude.{ℕ, String, Bool}

mutual
  pub data Json (F : Type 0) : Type 0 where
    text : String → Json F
    number : F → Json F
    integer : ℕ → Json F
    flag : Bool → Json F
    array : Items F → Json F
    object : Fields F → Json F

  pub data Items (F : Type 0) : Type 0 where
    no_items : Items F
    item : Json F → Items F → Items F

  pub data Fields (F : Type 0) : Type 0 where
    no_fields : Fields F
    field : String → Json F → Fields F → Fields F
