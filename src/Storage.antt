-- ===== src/Storage.antt =====
-- packages/storage/src: the tables, the repositories and the memory service.
pub mod Models
pub mod Tables
pub mod Workflows
pub mod Topics
pub mod Articles
pub mod Steps
pub mod Memory
pub mod MemoryReviews
pub mod Views
pub mod Finished
pub mod RoundTrips
pub mod Duplicates
pub mod Recovery
pub mod Attempts
