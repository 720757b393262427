-- ===== src/Listener.antt =====
-- packages/log-sump-listener: discovers containers, runs their listeners, and samples metrics.
pub mod Registry
pub mod Tracker
pub mod Logging
pub mod Main
pub mod Manager
pub mod Units
pub mod ContainerListener
pub mod JsonLines
pub mod ContainersListing
pub mod ContainerStats
pub mod SystemStats
pub mod System
pub mod Wiring
pub mod Samples
