-- ===== src/DnsParser/Enums/Opcode.antt =====
-- src/dns_parser/enums.rs: `Opcode` and its conversions.
use easyfibers.Prelude.{ℕ, ◌==◌, if◌then◌else◌}

pub data Opcode : Type 0 where
  standard_query inverse_query server_status_request : Opcode
  reserved : ℕ → Opcode

unfoldable pub of_u16 : ℕ → Opcode
of_u16 code =
    if code == 0
    then standard_query
    else if code == 1
    then inverse_query
    else if code == 2
    then server_status_request
    else reserved code

unfoldable pub to_u16 : Opcode → ℕ
to_u16 standard_query = 0
to_u16 inverse_query = 1
to_u16 server_status_request = 2
to_u16 (reserved x) = x
