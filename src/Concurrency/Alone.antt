-- ===== src/Concurrency/Alone.antt =====
-- A goroutine that no other one interrupts does what its handler does (internal/worker/pool.go,
-- internal/service/invoice_service.go).
pub mod Publishing
pub mod Programs
