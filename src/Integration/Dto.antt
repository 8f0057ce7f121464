-- ===== src/Integration/Dto.antt =====
-- The messages of the Viettel API (internal/integration/viettel_dto.go).
pub mod Requests
pub mod Responses
