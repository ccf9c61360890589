-- ===== src/Turbotunnel.antt =====
-- snowflake/common/turbotunnel: packet queues that outlive the connections below them.
pub mod ClientMap
pub mod PacketConn
pub mod Redial
