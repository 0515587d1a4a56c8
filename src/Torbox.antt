-- ===== src/Torbox.antt =====
-- internal/torbox: the client of the TorBox API.
pub mod Client
pub mod Listing
