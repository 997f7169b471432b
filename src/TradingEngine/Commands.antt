-- ===== src/TradingEngine/Commands.antt =====
-- `TradingEngine::executeCommand`: the commands of the IPC server. Each component may be missing,
-- as the unique_ptr that holds it may be null.
use quant_core_engine.Prelude.{
  String, ◌≡◌, refl, sym, Bool, true, false, Option, none, some, List, [], ◌∷◌, ◌==◌, string_eq,
  if◌then◌else◌, Bool-cases, inl, inr,
}
use mathlib.Core.Path.{subst}
use quant_core_engine.Domain.{Position}
use quant_core_engine.Json.{
  Json, text, number, flag, array, object, Items, no_items, item, no_fields, field,
}
use quant_core_engine.PositionEngine.{PositionEngine, get_snapshots}
use quant_core_engine.RiskEngine.{RiskEngine}
use Prim.Native.String.{◌++◌}

-- What `executeCommand` reads and changes.
pub record Components (F : Type 0) : Type 0 where
  pub risk_engine : Option (RiskEngine F)
  pub position_engine : Option (PositionEngine F)

module _ {F : Type 0} where
  unfoldable pub position_json : Position F → Json F
  position_json pos = object (
      field "symbol" (text pos.symbol) (
        field "net_quantity" (number pos.net_quantity) (
          field "average_price" (number pos.average_price)
            (field "realized_pnl" (number pos.realized_pnl) no_fields))))

  unfoldable pub position_items : List (Position F) → Items F
  unfolding position_json
  position_items [] = no_items
  position_items (pos ∷ rest) = item (position_json pos) (position_items rest)

  unfoldable pub halted_of : Option (RiskEngine F) → Bool
  halted_of none = false
  halted_of (some s) = s.halt_flag

  unfoldable pub snapshots_of : Option (PositionEngine F) → List (Position F)
  snapshots_of none = []
  snapshots_of (some s) = get_snapshots s

  unfoldable pub halt : Option (RiskEngine F) → Option (RiskEngine F)
  halt none = none
  halt (some s) = some (record s { halt_flag = true })

  -- The object that `response.dump()` prints, and the components after the command.
  unfoldable pub execute_command : String → Components F → Json F × Components F
  unfolding position_items halted_of snapshots_of halt
  execute_command cmd c =
      if cmd == "PING"
      then (object (field "status" (text "ok") (field "response" (text "PONG") no_fields)), c)
      else if cmd == "STATUS"
      then (
        object (
            field "status" (text "ok") (
              field "halted" (flag (halted_of c.risk_engine)) (
                field "positions" (array (position_items (snapshots_of c.position_engine)))
                  no_fields))),
        c,
      )
      else if cmd == "HALT"
      then (
        object (field "status" (text "ok") (field "response" (text "Trading halted") no_fields)),
        record c { risk_engine = halt c.risk_engine },
      )
      else (
        object (
            field "status" (text "error")
              (field "response" (text ("Unknown command: " ++ cmd)) no_fields)),
        c,
      )

  abbrev Effect : String → Components F → Type 0
  Effect cmd c =
      (execute_command cmd c).1
      ≡ (if cmd == "HALT" then record c { risk_engine = halt c.risk_engine } else c)

  Effect-ping : (c : Components F) → Effect "PING" c
  unfolding execute_command
  Effect-ping c = refl

  Effect-status : (c : Components F) → Effect "STATUS" c
  unfolding execute_command
  Effect-status c = refl

  -- Only HALT changes the engine; it halts a risk engine that exists, and nothing else.
  pub execute_command-effect :
      (cmd : String) (c : Components F)
      → (execute_command cmd c).1
        ≡ (if cmd == "HALT" then record c { risk_engine = halt c.risk_engine } else c)
  unfolding execute_command
  execute_command-effect cmd c = elim (Bool-cases (cmd == "PING")) [
    | inl p ↦ subst (λ t. Effect t c) (sym ((string_eq.beq_iff cmd "PING").0 p)) (Effect-ping c)
    | inr p ↦ elim (Bool-cases (cmd == "STATUS")) [
      | inl s ↦
          subst (λ t. Effect t c) (sym ((string_eq.beq_iff cmd "STATUS").0 s)) (Effect-status c)
      | inr s ↦ elim (Bool-cases (cmd == "HALT")) [
        | inl h ↦ rw (p, execute_command) (rw (s) (rw h refl))
        | inr h ↦ rw (p, execute_command) (rw (s) (rw h refl))
      ]
    ]
  ]

  -- A STATUS that follows a HALT says so.
  pub status_after_halt :
      (s : RiskEngine F) (p : Option (PositionEngine F))
      → let c : Components F = record { risk_engine = some s; position_engine = p } in
        (execute_command "STATUS" (execute_command "HALT" c).1).0
        ≡ object (
            field "status" (text "ok") (
              field "halted"
                (flag true)
                (field "positions" (array (position_items (snapshots_of p))) no_fields)))
  unfolding execute_command
  status_after_halt s p = refl

  -- The reply to a command other than STATUS does not depend on the components.
  pub execute_command-reply :
      (cmd : String) (b c : Components F)
      → (cmd == "STATUS") ≡ false
      → (execute_command cmd b).0 ≡ (execute_command cmd c).0
  unfolding execute_command
  execute_command-reply cmd b c other = elim (Bool-cases (cmd == "PING")) [
    | inl p ↦ rw p refl
    | inr p ↦ elim (Bool-cases (cmd == "HALT")) [
      | inl h ↦ rw (p, other, h) refl
      | inr h ↦ rw (p, other, h) refl
    ]
  ]
