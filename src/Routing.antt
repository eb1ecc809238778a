-- ===== src/Routing.antt =====
-- The rule engine that finds an order's executor.
pub mod People
pub mod Waterfall
pub mod Engine
pub mod Theorems
pub mod Precedence
pub mod Reassignment
