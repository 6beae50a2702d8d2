-- ===== src/DnsParser/Enums/Class.antt =====
-- src/dns_parser/enums.rs: `Class` and `Class::parse`.
use easyfibers.Prelude.{ℕ, ◌==◌, if◌then◌else◌}
use easyfibers.Prelude.Outcome.{Outcome, ok, err}
use easyfibers.DnsParser.Error.{Error, invalid_class}

pub data Class : Type 0 where
  in_ cs ch hs : Class

-- The discriminant, which `as u16` reads.
unfoldable pub to_u16 : Class → ℕ
to_u16 in_ = 1
to_u16 cs = 2
to_u16 ch = 3
to_u16 hs = 4

unfoldable pub parse : ℕ → Outcome Error Class
parse code =
    if code == 1
    then ok in_
    else if code == 2
    then ok cs
    else if code == 3
    then ok ch
    else if code == 4
    then ok hs
    else err (invalid_class code)
