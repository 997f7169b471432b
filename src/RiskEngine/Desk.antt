-- ===== src/RiskEngine/Desk.antt =====
-- The risk engine with what it refers to: the id generator, the positions, and a log of its orders.
use quant_core_engine.Prelude.{List, [], ◌∷◌, ◌++◌}
use quant_core_engine.Double.{Double}
use quant_core_engine.Events.{Timestamp, SignalEvent, RiskViolationEvent, Event}
use quant_core_engine.OrderIdGenerator.{OrderIdGenerator, next_id}
use quant_core_engine.PositionEngine.{PositionEngine}
use quant_core_engine.RiskEngine.{RiskEngine, RiskHost, on_signal, on_risk_violation, halt_trading}

pub record Desk (F : Type 0) : Type 0 where
  pub engine : RiskEngine F
  pub ids : OrderIdGenerator
  pub positions : PositionEngine F
  pub log : List (Event F)

abbrev pub desk : {F : Type 0} → RiskHost (Desk F) F
desk = record {
  host = record {
    get = λ w. w.engine;
    put = λ s w. record w { engine = s };
    publish = λ e w. record w { log = w.log ++ e ∷ [] };
  };
  draw_id = λ w. ((next_id w.ids).0, record w { ids = (next_id w.ids).1 });
  positions = λ w. w.positions;
}

-- What reaches the engine: signals with the time of their handling, violations, and the HALT command.
pub data Input (F : Type 0) : Type 0 where
  signalled : Timestamp → SignalEvent F → Input F
  violated : RiskViolationEvent F → Input F
  commanded : Input F

module _ {F : Type 0} ⦃d : Double F⦄ where
  unfoldable pub handle : Input F → Desk F → Desk F
  handle (signalled now e) w = on_signal desk now e w
  handle (violated e) w = on_risk_violation desk e w
  handle commanded w = halt_trading desk w

  unfoldable pub handle_all : List (Input F) → Desk F → Desk F
  handle_all [] w = w
  handle_all (i ∷ is) w = handle_all is (handle i w)
