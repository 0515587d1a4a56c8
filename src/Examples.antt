-- ===== src/Examples.antt =====
-- The theorems at concrete inputs: a small catalogue, and a playback server.
mod Data
mod Catalogue
mod Setup
mod Playback
mod Proxy
mod Settings
mod Browsing
mod Browser
mod Upkeep
mod Control
mod Traffic
mod Charts
