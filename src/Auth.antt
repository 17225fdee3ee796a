-- ===== src/Auth.antt =====
-- The login server: server2.
pub mod Driver
pub mod Hash
pub mod Repository
pub mod Login
pub mod Http
