-- ===== src/Calls.antt =====
-- Calls: the rows of the `calls` table and their life, from
-- server/internal/telephony/calls.
pub mod Model
pub mod Requests
pub mod Store
pub mod Lifecycle
pub mod Failover
pub mod Service
pub mod Consumer
mod Examples
