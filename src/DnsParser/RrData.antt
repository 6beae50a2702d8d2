-- ===== src/DnsParser/RrData.antt =====
-- src/dns_parser/rrdata.rs and src/dns_parser/structs.rs: the data of a resource record. An `Ipv4Addr` is its 32-bit
-- number, an `Ipv6Addr` the list of its eight segments, a `String` its bytes.
pub mod Safety
use easyfibers.Prelude.{
  ℕ, zero, suc, ◌+◌, not, List, [], ◌∷◌, ◌++◌, ◌==◌, ltb, if◌then◌else◌, length,
}
use easyfibers.Prelude.Outcome.{Outcome, ok, err, stuck, ◌>>=◌}
use easyfibers.Prelude.Slice.{slice, slice_from, index}
use easyfibers.Prelude.Text.{is_utf8}
use easyfibers.DnsParser.Error.{Error, wrong_rdata_length, txt_data_is_not_utf8}
use easyfibers.DnsParser.ByteOrder.{BigEndian, read_u16_at, read_u32, read_u32_at}
use easyfibers.DnsParser.Enums.RecordType
use easyfibers.DnsParser.Enums.RecordType.{RecordType}
use easyfibers.DnsParser.Name.{Name, byte_len, scan}

pub record SoaRecord : Type 0 where
  pub primary_ns : Name
  pub mailbox : Name
  pub serial : ℕ
  pub refresh : ℕ
  pub retry : ℕ
  pub expire : ℕ
  pub minimum_ttl : ℕ

pub data RrData : Type 0 where
  cname : Name → RrData
  ns : Name → RrData
  a : ℕ → RrData
  aaaa : List ℕ → RrData
  -- priority, weight, port, target
  srv : ℕ → ℕ → ℕ → Name → RrData
  soa : SoaRecord → RrData
  ptr : Name → RrData
  -- preference, exchange
  mx : ℕ → Name → RrData
  txt : List ℕ → RrData
  unknown : List ℕ → RrData

-- The loop `while pos < len` over the strings of a TXT record. It takes a byte a round at least, so
-- `length rdata` rounds are enough.
unfoldable pub txt_loop : ℕ → List ℕ → ℕ → List ℕ → Outcome Error RrData
txt_loop zero rdata pos ret_string =
    if not (ltb pos (length rdata)) then ok (txt ret_string) else stuck
txt_loop (suc fuel) rdata pos ret_string =
    if not (ltb pos (length rdata)) then ok (txt ret_string) else do
      rdlen ← index rdata pos
      let start = pos + 1
      if ltb (length rdata) (rdlen + start) then err wrong_rdata_length else do
        val ← slice rdata start (start + rdlen)
        if not (is_utf8 val)
            then err txt_data_is_not_utf8
            else txt_loop fuel rdata (start + rdlen) (ret_string ++ val)

module _ ⦃be : BigEndian⦄ where
  parse_soa : List ℕ → List ℕ → Outcome Error RrData
  parse_soa rdata original = do
    primary_name_server ← scan rdata original
    let pos = byte_len primary_name_server
    rest ← slice_from rdata pos
    mailbox ← scan rest original
    let pos = pos + byte_len mailbox
    rest ← slice_from rdata pos
    if ltb (length rest) 20 then err wrong_rdata_length else do
      serial ← read_u32_at rdata pos (pos + 4)
      refresh ← read_u32_at rdata (pos + 4) (pos + 8)
      retry ← read_u32_at rdata (pos + 8) (pos + 12)
      expire ← read_u32_at rdata (pos + 12) (pos + 16)
      minimum_ttl ← read_u32_at rdata (pos + 16) (pos + 20)
      ok (
          soa (record {
            primary_ns = primary_name_server;
            mailbox = mailbox;
            serial = serial;
            refresh = refresh;
            retry = retry;
            expire = expire;
            minimum_ttl = minimum_ttl;
          }))

  parse_aaaa : List ℕ → Outcome Error RrData
  parse_aaaa rdata = do
    s0 ← read_u16_at rdata 0 2
    s1 ← read_u16_at rdata 2 4
    s2 ← read_u16_at rdata 4 6
    s3 ← read_u16_at rdata 6 8
    s4 ← read_u16_at rdata 8 10
    s5 ← read_u16_at rdata 10 12
    s6 ← read_u16_at rdata 12 14
    s7 ← read_u16_at rdata 14 16
    ok (aaaa (s0 ∷ s1 ∷ s2 ∷ s3 ∷ s4 ∷ s5 ∷ s6 ∷ s7 ∷ []))

  unfoldable pub parse : RecordType → List ℕ → List ℕ → Outcome Error RrData
  unfolding parse_soa parse_aaaa
  parse RecordType.a rdata original =
      if not (length rdata == 4) then err wrong_rdata_length else do n ← read_u32 rdata; ok (a n)
  parse RecordType.aaaa rdata original =
      if not (length rdata == 16) then err wrong_rdata_length else parse_aaaa rdata
  parse RecordType.cname rdata original = do name ← scan rdata original; ok (cname name)
  parse RecordType.ns rdata original = do name ← scan rdata original; ok (ns name)
  parse RecordType.mx rdata original = if ltb (length rdata) 3 then err wrong_rdata_length else do
    preference ← read_u16_at rdata 0 2
    rest ← slice_from rdata 2
    exchange ← scan rest original
    ok (mx preference exchange)
  parse RecordType.ptr rdata original = do name ← scan rdata original; ok (ptr name)
  parse RecordType.soa rdata original = parse_soa rdata original
  parse RecordType.srv rdata original = if ltb (length rdata) 7 then err wrong_rdata_length else do
    priority ← read_u16_at rdata 0 2
    weight ← read_u16_at rdata 2 4
    port ← read_u16_at rdata 4 6
    rest ← slice_from rdata 6
    target ← scan rest original
    ok (srv priority weight port target)
  parse RecordType.txt rdata original =
      if ltb (length rdata) 1 then err wrong_rdata_length else txt_loop (length rdata) rdata 0 []
  parse _ rdata original = ok (unknown rdata)
