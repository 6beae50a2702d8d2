-- ===== src/DnsParser/Enums/ResponseCode.antt =====
-- src/dns_parser/enums.rs: `ResponseCode` and its conversions.
use easyfibers.Prelude.{ℕ, ◌==◌, leb, if◌then◌else◌}
use easyfibers.Prelude.Outcome.{Outcome, ok, panic}

pub data ResponseCode : Type 0 where
  no_error format_error server_failure name_error not_implemented refused : ResponseCode
  reserved : ℕ → ResponseCode

-- `From<u8>`: a code above 15 panics.
unfoldable pub of_u8 : {E : Type 0} → ℕ → Outcome E ResponseCode
of_u8 code =
    if code == 0
    then ok no_error
    else if code == 1
    then ok format_error
    else if code == 2
    then ok server_failure
    else if code == 3
    then ok name_error
    else if code == 4
    then ok not_implemented
    else if code == 5
    then ok refused
    else if leb code 15
    then ok (reserved code)
    else panic

unfoldable pub to_u8 : ResponseCode → ℕ
to_u8 no_error = 0
to_u8 format_error = 1
to_u8 server_failure = 2
to_u8 name_error = 3
to_u8 not_implemented = 4
to_u8 refused = 5
to_u8 (reserved code) = code
