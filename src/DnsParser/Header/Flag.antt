-- ===== src/DnsParser/Header/Flag.antt =====
-- src/dns_parser/header.rs: `mod flag`.
use easyfibers.Prelude.{ℕ}

abbrev pub query : ℕ
query = 0b1000_0000_0000_0000

abbrev pub opcode_mask : ℕ
opcode_mask = 0b0111_1000_0000_0000

abbrev pub authoritative : ℕ
authoritative = 0b0000_0100_0000_0000

abbrev pub truncated : ℕ
truncated = 0b0000_0010_0000_0000

abbrev pub recursion_desired : ℕ
recursion_desired = 0b0000_0001_0000_0000

abbrev pub recursion_available : ℕ
recursion_available = 0b0000_0000_1000_0000

abbrev pub authenticated_data : ℕ
authenticated_data = 0b0000_0000_0010_0000

abbrev pub checking_disabled : ℕ
checking_disabled = 0b0000_0000_0001_0000

abbrev pub reserved_mask : ℕ
reserved_mask = 0b0000_0000_0100_0000

abbrev pub response_code_mask : ℕ
response_code_mask = 0b0000_0000_0000_1111
