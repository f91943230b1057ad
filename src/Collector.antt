-- ===== src/Collector.antt =====
-- services/src/cadns/collector: from BIND's dnstap stream to queue entries.
pub mod FrameStreams
pub mod Dnstap
pub mod Batches
