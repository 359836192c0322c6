-- ===== src/Appmetrics.antt =====
-- The package appmetrics: metric structs, tagged metrics and the emitters.
pub mod Registry
pub mod Tags
pub mod Values
pub mod Samples
pub mod Structs
pub mod Emitter
