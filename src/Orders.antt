-- ===== src/Orders.antt =====
-- The order service: internal/services/order_service_*.go and what it uses of pkg/utils.
pub mod Metrics
pub mod Store
pub mod Patch
pub mod Requests
pub mod History
pub mod Access
pub mod Validation
pub mod Create
pub mod Update
pub mod Listing
pub mod Timeline
