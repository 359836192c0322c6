-- ===== src/Baseapp.antt =====
-- The package baseapp: the server, its middleware and its configuration.
pub mod Ignore
pub mod Writer
pub mod Metrics
pub mod Access
pub mod Config
pub mod Logging
pub mod Datadog
pub mod Errors
pub mod Server
pub mod Middleware
pub mod Stack
