-- ===== src/DnsParser/Enums.antt =====
-- src/dns_parser/enums.rs: the codes of the protocol, a module for each enum.
pub mod Class
pub mod QueryClass
pub mod QueryType
pub mod RecordType
pub mod Opcode
pub mod ResponseCode
pub mod Codes
