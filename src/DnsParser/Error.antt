-- ===== src/DnsParser/Error.antt =====
-- src/dns_parser/error.rs: why a packet is refused. The text of each description is not modelled, nor
-- the position that `Utf8Error` carries.
use easyfibers.Prelude.{ℕ}

pub data Error : Type 0 where
  bad_pointer header_too_short unexpected_eof wrong_rdata_length : Error
  reserved_bits_are_non_zero unknown_label_format : Error
  invalid_query_type invalid_query_class invalid_type invalid_class : ℕ → Error
  label_is_not_ascii txt_data_is_not_utf8 wrong_state additional_opt : Error
