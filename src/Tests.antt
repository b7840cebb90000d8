-- ===== src/Tests.antt =====
-- The theorems at concrete inputs.
mod Machine
mod Builds
mod Conversions
mod Requests
mod Inputs
mod Rendering
mod Goroutines
mod Targets
mod CommandRuns
mod Sizes
