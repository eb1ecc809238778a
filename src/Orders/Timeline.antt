-- ===== src/Orders/Timeline.antt =====
-- The timeline of an order, internal/services/order_history.go: the history read back, one block
-- for the items of one transaction, and ids turned into names.
pub mod Names
pub mod Texts
pub mod Lines
pub mod Blocks
pub mod Transparent
pub mod Partition
pub mod Answer
pub mod Readback
