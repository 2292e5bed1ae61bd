-- ===== src/Examples.antt =====
-- Tests of the definitions and the theorems at concrete inputs, one module for each part.
mod Runs
mod Policies
mod Patches
mod People
mod Checkpoints
mod Workflows
mod Writes
mod Automatic
