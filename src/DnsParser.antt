-- ===== src/DnsParser.antt =====
-- dns_parser: the DNS packet reader and writer.
pub mod Error
pub mod ByteOrder
pub mod Enums
pub mod Header
pub mod Name
pub mod RrData
pub mod Packet
pub mod Builder
