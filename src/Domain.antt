-- ===== src/Domain.antt =====
-- The domain objects of core/app/include/quant/domain: order.hpp, order_status.hpp, position.hpp
-- and risk_limits.hpp. `F` stands for double; a 64-bit id is a ℕ.
use quant_core_engine.Prelude.{ℕ, String}
use quant_core_engine.Double.{Double, lit, neg}

abbrev pub OrderId : Type 0
OrderId = ℕ

pub data Side : Type 0 where
  buy sell : Side

pub data OrderStatus : Type 0 where
  new pending_new accepted partially_filled filled canceled rejected expired : OrderStatus

pub OrderStatus-discrete : Discrete OrderStatus
OrderStatus-discrete = hlevel

pub record Order (F : Type 0) : Type 0 where
  pub id : OrderId
  pub strategy_id : String
  pub symbol : String
  pub side : Side
  pub quantity : F
  pub price : F
  pub status : OrderStatus
  pub filled_quantity : F

pub record Position (F : Type 0) : Type 0 where
  pub symbol : String
  pub net_quantity : F
  pub average_price : F
  pub realized_pnl : F

pub record RiskLimits (F : Type 0) : Type 0 where
  pub max_position_per_symbol : F
  pub max_drawdown : F

module _ {F : Type 0} ⦃d : Double F⦄ where
  -- `Position{}`, which `operator[]` makes for a key that is missing.
  abbrev pub new_position : Position F
  new_position = record {
    symbol = "";
    net_quantity = lit 0;
    average_price = lit 0;
    realized_pnl = lit 0;
  }

  -- `RiskLimits{}`.
  abbrev pub default_limits : RiskLimits F
  default_limits = record { max_position_per_symbol = lit 1000; max_drawdown = neg (lit 500) }
