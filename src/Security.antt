-- ===== src/Security.antt =====
-- Who may do what: server/internal/security.
pub mod Authz
mod Examples
