-- ===== src/Batch.antt =====
-- The binary batch format of server/client/batch_binary.go and server/batch_binary.go.
pub mod Client
pub mod Blocks
pub mod Server
pub mod Points
pub mod RoundTrip
