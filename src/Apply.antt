-- ===== src/Apply.antt =====
-- internal/apply: metadata.go, unstructured.go and ingressroute.go.
pub mod Metadata
pub mod Patch
pub mod Objects
pub mod Tracked
