-- ===== src/Sinks.antt =====
-- src/core/sink/sink.h and src/sinks: where batches go.
pub mod Queue
pub mod Null
pub mod Stdout
pub mod Http
pub mod Tests
