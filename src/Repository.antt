-- ===== src/Repository.antt =====
-- The PostgreSQL repositories (internal/repository/postgres).
pub mod Rows
pub mod Invoices
pub mod Status
pub mod Reliable
pub mod Tokens
pub mod Upsert
pub mod Completed
pub mod Lookups
pub mod Items
pub mod Atomic
pub mod Reads
pub mod Listing
