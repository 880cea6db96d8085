-- ===== src/Examples.antt =====
-- The theorems at concrete inputs, with the test data and simple implementations of the interfaces.
mod Samples
mod Tracking
mod Status
mod Scans
mod Grades
mod Drift
mod Inputs
mod Runs
mod Schemas
mod DevDbs
