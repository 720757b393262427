-- ===== src/Common.antt =====
-- packages/log-sump-common: what the listener and the server share.
pub mod Schema
pub mod RedisKeys
pub mod Redis
pub mod Auth
pub mod Config
pub mod Transport
