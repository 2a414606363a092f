-- ===== src/Tests.antt =====
-- Runs of the model on concrete inputs.
mod Samples
mod Config
mod Policy
mod Proxy
mod Routes
mod Collision
mod Notifications
mod Concurrent
mod Interference
mod Dispatch
mod Auth
mod Startup
mod Serving
mod Metrics
mod Logging
mod Yaml
mod Attempts
mod Resolving
