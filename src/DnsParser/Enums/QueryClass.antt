-- ===== src/DnsParser/Enums/QueryClass.antt =====
-- src/dns_parser/enums.rs: `QueryClass` and `QueryClass::parse`.
use easyfibers.Prelude.{ℕ, ◌==◌, if◌then◌else◌}
use easyfibers.Prelude.Outcome.{Outcome, ok, err}
use easyfibers.DnsParser.Error.{Error, invalid_query_class}

pub data QueryClass : Type 0 where
  in_ cs ch hs any : QueryClass

-- The discriminant, which `as u16` reads.
unfoldable pub to_u16 : QueryClass → ℕ
to_u16 in_ = 1
to_u16 cs = 2
to_u16 ch = 3
to_u16 hs = 4
to_u16 any = 255

unfoldable pub parse : ℕ → Outcome Error QueryClass
parse code =
    if code == 1
    then ok in_
    else if code == 2
    then ok cs
    else if code == 3
    then ok ch
    else if code == 4
    then ok hs
    else if code == 255
    then ok any
    else err (invalid_query_class code)
