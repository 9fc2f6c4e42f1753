-- ===== src/Auth.antt =====
-- The session: apps/web/src/lib/auth and apps/web/src/proxy.ts.
pub mod Proxy
pub mod Session
pub mod Bff
pub mod Api
mod Tests
