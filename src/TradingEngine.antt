-- ===== src/TradingEngine.antt =====
-- core/engine/src/trading_engine.cpp with core/app/src/network/order_routing_thread.cpp: the three
-- event loops, the components on their buses, and the bridges between them.
pub mod World
pub mod Wiring
pub mod Turns
pub mod Fuel
pub mod Restart
pub mod Commands
pub mod Stages
pub mod Pipeline
pub mod Halt
pub mod Unordered
pub mod Hydration
pub mod Drawdown
pub mod Reconciler
pub mod Collision
pub mod Handlers
pub mod Updates
pub mod Induction
pub mod Sound
pub mod Queued
pub mod InOrder
pub mod Schedule
pub mod Remote
pub mod Served
pub mod Weight
pub mod Publishing
pub mod Settling
pub mod Process
pub mod Simulation
pub mod Covered
pub mod Starting
pub mod Stopping
