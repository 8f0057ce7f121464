-- ===== src/Domain.antt =====
-- The package internal/domain: statuses, invoices, errors, access tokens and the publisher's port.
pub mod Status
pub mod Invoice
pub mod Errors
pub mod Token
pub mod Publisher
