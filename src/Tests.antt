-- ===== src/Tests.antt =====
-- Runs of the model on small inputs, and each theorem at an input that meets its hypotheses.
mod Data
mod Keys
mod Logs
mod Manifests
mod Tables
mod Scans
mod Writes
mod Blocks
mod Files
mod Reads
mod Flushes
