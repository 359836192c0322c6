-- ===== src/Tests.antt =====
-- Runs of the models on concrete inputs, and the theorems applied at such inputs.
mod Providers
mod Metrics
mod Emitting
mod Serving
mod Stacks
mod Settings
mod Structs
mod Saml
mod Logins
mod Programs
