-- ===== src/Research.antt =====
-- packages/research: reading pages of the web safely, and collecting topics.
pub mod Codes
pub mod Ip
pub mod Addresses
pub mod Fetcher
