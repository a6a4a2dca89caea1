-- ===== src/Protocol/Conversion.antt =====
-- internal/transform/protocol/http_conversion.go: HTTP services.
pub mod Targets
pub mod Rewrite
