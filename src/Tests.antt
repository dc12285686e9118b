-- ===== src/Tests.antt =====
-- The theorems at concrete inputs, and runs of the definitions.
mod Floats
mod CheckLog
pub mod Records
mod Summary
mod Collect
mod Runtime
pub mod RemovedAccess
mod Classify
mod Apply
pub mod Batch
mod Comparison
