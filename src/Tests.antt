-- ===== src/Tests.antt =====
-- The components at concrete inputs.
mod Packing
mod Codecs
mod Strings
mod Logs
mod Queries
mod Batches
mod Conditions
mod Blocks
mod Requests
