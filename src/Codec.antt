-- ===== src/Codec.antt =====
-- The segment codecs of tsdb/segment_compression*.go: what they share. The values that they write
-- are variants of a package outside the repository, and the packing of integers into words is that
-- of simple8b: both are parameters.
pub mod Defs
pub mod ZigZag
pub mod Int
pub mod Time
pub mod Flag
pub mod Text
