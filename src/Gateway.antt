-- ===== src/Gateway.antt =====
-- The SSH gateway: internal/gateway and cmd/gateway.
pub mod LoginName
pub mod LdapEscape
pub mod Identity
pub mod Auth
pub mod LdapCache
pub mod LdapConn
pub mod LdapWarn
mod Samples
