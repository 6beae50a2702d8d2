-- ===== src/DnsParser/Enums/QueryType.antt =====
-- src/dns_parser/enums.rs: `QueryType` and `QueryType::parse`.
use easyfibers.Prelude.{ℕ, ◌==◌, if◌then◌else◌}
use easyfibers.Prelude.Outcome.{Outcome, ok, err}
use easyfibers.DnsParser.Error.{Error, invalid_query_type}

pub data QueryType : Type 0 where
  a ns mf cname soa mb mg mr null wks ptr hinfo minfo mx txt aaaa srv axfr mailb maila all :
      QueryType

-- The discriminant, which `as u16` reads.
unfoldable pub to_u16 : QueryType → ℕ
to_u16 a = 1
to_u16 ns = 2
to_u16 mf = 4
to_u16 cname = 5
to_u16 soa = 6
to_u16 mb = 7
to_u16 mg = 8
to_u16 mr = 9
to_u16 null = 10
to_u16 wks = 11
to_u16 ptr = 12
to_u16 hinfo = 13
to_u16 minfo = 14
to_u16 mx = 15
to_u16 txt = 16
to_u16 aaaa = 28
to_u16 srv = 33
to_u16 axfr = 252
to_u16 mailb = 253
to_u16 maila = 254
to_u16 all = 255

unfoldable pub parse : ℕ → Outcome Error QueryType
parse code =
    if code == 1
    then ok a
    else if code == 2
    then ok ns
    else if code == 4
    then ok mf
    else if code == 5
    then ok cname
    else if code == 6
    then ok soa
    else if code == 7
    then ok mb
    else if code == 8
    then ok mg
    else if code == 9
    then ok mr
    else if code == 10
    then ok null
    else if code == 11
    then ok wks
    else if code == 12
    then ok ptr
    else if code == 13
    then ok hinfo
    else if code == 14
    then ok minfo
    else if code == 15
    then ok mx
    else if code == 16
    then ok txt
    else if code == 28
    then ok aaaa
    else if code == 33
    then ok srv
    else if code == 252
    then ok axfr
    else if code == 253
    then ok mailb
    else if code == 254
    then ok maila
    else if code == 255
    then ok all
    else err (invalid_query_type code)
