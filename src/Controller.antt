-- ===== src/Controller.antt =====
-- internal/controller: reconciliation, garbage collection and the polling loop.
pub mod Gc
pub mod Backoff
pub mod Core
pub mod Routers
pub mod Reconcile
pub mod Parallel
pub mod Fetch
pub mod Lifecycle
pub mod Loop
