-- ===== src/Appmetrics/Emitter.antt =====
-- The emitters: how the metrics of a registry are reported to Datadog and to Prometheus.
pub mod Datadog
pub mod Prometheus
pub mod Reported
