-- ===== src/Examples.antt =====
-- The theorems at concrete inputs.
mod Data
mod Names
mod Collection
mod Services
mod Rounds
mod Labels
mod Tracked
mod Parallel
mod Startup
