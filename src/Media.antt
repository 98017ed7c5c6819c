-- ===== src/Media.antt =====
-- Media sessions: server/internal/media/session.
pub mod Queue
pub mod Config
pub mod Frame
pub mod Manager
mod Examples
