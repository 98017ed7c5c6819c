-- ===== src/Calling.antt =====
-- The Redis side of a call: `ChannelStore` and `AdmissionLimiter` of
-- server/internal/runtime/calling/channel.go over the lease scripts of
-- server/internal/integrations/redis/cache.go.
pub mod Leases
pub mod Channels
pub mod Egress
pub mod Controller
pub mod Events
pub mod Translator
