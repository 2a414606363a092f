-- ===== src/Proxy.antt =====
-- The packages of internal/proxy.
pub mod Errors
pub mod Route
pub mod Response
pub mod Notifications
pub mod Schema
pub mod Upstream
pub mod Listing
pub mod Options
pub mod Dispatch
pub mod Middleware
pub mod Concurrent
