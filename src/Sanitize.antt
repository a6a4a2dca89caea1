-- ===== src/Sanitize.antt =====
-- internal/transform/sanitize/sanitize.go
pub mod Name
pub mod References
pub mod Config
