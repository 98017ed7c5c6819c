-- ===== src/Platform.antt =====
-- Background work: server/internal/platform.
pub mod Retry
pub mod Delivery
pub mod Idempotency
pub mod Outbox
mod Examples
