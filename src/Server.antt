-- ===== src/Server.antt =====
-- internal/server: CDN URLs with their caches and breakers, byte ranges, proxying, listings and dispatch.
pub mod State
pub mod Health
pub mod Breaker
pub mod Sweep
pub mod Missing
pub mod Fetch
pub mod Range
pub mod Answer
pub mod Hang
pub mod Stream
pub mod Setup
pub mod Actions
pub mod Metrics
pub mod Series
pub mod Routes
pub mod Logs
pub mod Listing
pub mod Browser
pub mod Page
pub mod Dispatch
