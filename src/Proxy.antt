-- ===== src/Proxy.antt =====
-- The brokered proxy: server/src/proxy.rs, and the injection templates of server/src/injection.rs.
pub mod Headers
pub mod Injection
pub mod Template
pub mod Target
pub mod Setting
pub mod Placed
pub mod Handle
