-- ===== src/Integration.antt =====
-- The package internal/integration: the mapping of invoices, the client of the Viettel API and the
-- publisher on top of it.
pub mod Dto
pub mod Mapper
pub mod Failures
pub mod Wire
pub mod Auth
pub mod Client
pub mod Publisher
