-- ===== src/Dpi.antt =====
-- The dpi transport: a TCP or UDP stream carried in encrypted HTTP bodies (dpi/common, dpi/server, dpi/client).
pub mod Header
pub mod Request
pub mod Crypto
pub mod Download
pub mod Server
pub mod Transport
pub mod Tunnel
pub mod Dns
pub mod Toy
mod Tests
