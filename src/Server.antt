-- ===== src/Server.antt =====
-- packages/log-sump-server: the query API, the ingestion consumer and the retention trimmer.
pub mod Queries
pub mod Inspect
pub mod Deps
pub mod Catalog
pub mod Health
pub mod Admin
pub mod App
pub mod Records
pub mod Ingest
pub mod Pipeline
pub mod Samples
