-- ===== src/Server/Ingest.antt =====
-- packages/log-sump-server/src/log_sump_server/ingest: records go from Logstash's list into the
-- streams, and old entries are trimmed.
pub mod Consumer
pub mod Trimmer
pub mod Interleaved
