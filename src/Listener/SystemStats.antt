-- ===== src/Listener/SystemStats.antt =====
-- packages/log-sump-listener/src/log_sump_listener/system_stats.py: the metrics of a daemon's host.
pub mod Sections
pub mod Devices
pub mod Proc
pub mod Cpu
pub mod DiskUsage
pub mod Metrics
pub mod Loop
pub mod Bounds
mod Samples
