-- ===== src/DnsParser/Packet.antt =====
-- src/dns_parser/parser.rs and src/dns_parser/structs.rs: a whole packet. `*offset` is passed on and returned.
pub mod Safety
use easyfibers.Prelude.{
  ℕ, zero, suc, ◌+◌, not, Bool, true, false, ◌&&◌, List, [], ◌∷◌, Option, none, some, ◌==◌, leb,
  ltb, if◌then◌else◌, length, take, drop, bit_and,
}
use easyfibers.Prelude.Outcome.{Outcome, ok, err, ◌>>=◌}
use easyfibers.Prelude.Slice.{slice, slice_from, index}
use easyfibers.DnsParser.Error.{Error, unexpected_eof, invalid_type, additional_opt}
use easyfibers.DnsParser.ByteOrder.{BigEndian, read_u16_at, read_u32_at}
use easyfibers.DnsParser.Enums.Class
use easyfibers.DnsParser.Enums.Class.{Class}
use easyfibers.DnsParser.Enums.QueryClass
use easyfibers.DnsParser.Enums.QueryClass.{QueryClass}
use easyfibers.DnsParser.Enums.QueryType
use easyfibers.DnsParser.Enums.QueryType.{QueryType}
use easyfibers.DnsParser.Enums.RecordType
use easyfibers.DnsParser.Header
use easyfibers.DnsParser.Header.{Header}
use easyfibers.DnsParser.Name.{Name, byte_len, scan}
use easyfibers.DnsParser.RrData
use easyfibers.DnsParser.RrData.{RrData}

pub record Question : Type 0 where
  pub qname : Name
  pub prefer_unicast : Bool
  pub qtype : QueryType
  pub qclass : QueryClass

pub record ResourceRecord : Type 0 where
  pub name : Name
  pub multicast_unique : Bool
  pub cls : Class
  pub ttl : ℕ
  pub rr_data : RrData

pub record OptRecord : Type 0 where
  pub udp : ℕ
  pub extrcode : ℕ
  pub version : ℕ
  pub flags : ℕ
  pub rr_data : RrData

pub record Packet : Type 0 where
  pub header : Header
  pub questions : List Question
  pub answers : List ResourceRecord
  pub nameservers : List ResourceRecord
  pub additional : List ResourceRecord
  pub opt : Option OptRecord

unfoldable pub parse_qclass_code : ℕ → Outcome Error (Bool × QueryClass)
parse_qclass_code value = do
  let prefer_unicast = bit_and value 0x8000 == 0x8000
  let qclass_code = bit_and value 0x7fff
  qclass ← QueryClass.parse qclass_code
  ok (prefer_unicast, qclass)

unfoldable pub parse_class_code : ℕ → Outcome Error (Bool × Class)
parse_class_code value = do
  let is_unique = bit_and value 0x8000 == 0x8000
  let class_code = bit_and value 0x7fff
  cls ← Class.parse class_code
  ok (is_unique, cls)

-- `if ttl > i32::MAX as u32 { ttl = 0; }`
abbrev clamp_ttl : ℕ → ℕ
clamp_ttl ttl = if ltb 0x7fff_ffff ttl then 0 else ttl

-- `typ != Type::OPT`
abbrev is_opt : RecordType.RecordType → Bool
is_opt RecordType.opt = true
is_opt _ = false

-- `offset + 3 <= data.len() && data[offset..offset+3] == OPT_RR_START`
abbrev same : List ℕ → List ℕ → Bool
same [] [] = true
same (x ∷ xs) (y ∷ ys) = x == y && same xs ys
same _ _ = false

abbrev is_opt_start : List ℕ → ℕ → Bool
is_opt_start buf offset =
    leb (offset + 3) (length buf) && same (take 3 (drop offset buf)) (0 ∷ 0 ∷ 41 ∷ [])

module _ ⦃be : BigEndian⦄ where
  -- The body of the loop over the questions.
  unfoldable pub parse_question : List ℕ → ℕ → Outcome Error (Question × ℕ)
  parse_question buf offset = do
    rest ← slice_from buf offset
    name ← scan rest buf
    let offset = offset + byte_len name
    if ltb (length buf) (offset + 4) then err unexpected_eof else do
      code ← read_u16_at buf offset (offset + 2)
      qtype ← QueryType.parse code
      let offset = offset + 2
      code ← read_u16_at buf offset (offset + 2)
      (prefer_unicast, qclass) ← parse_qclass_code code
      let offset = offset + 2
      ok (
        record { qname = name; prefer_unicast = prefer_unicast; qtype = qtype; qclass = qclass },
        offset,
      )

  unfoldable pub parse_questions : ℕ → List ℕ → ℕ → Outcome Error (List Question × ℕ)
  parse_questions zero buf offset = ok ([], offset)
  parse_questions (suc n) buf offset = do
    (q, offset) ← parse_question buf offset
    (qs, offset) ← parse_questions n buf offset
    ok (q ∷ qs, offset)

  unfoldable pub parse_record : List ℕ → ℕ → Outcome Error (ResourceRecord × ℕ)
  parse_record buf offset = do
    rest ← slice_from buf offset
    name ← scan rest buf
    let offset = offset + byte_len name
    if ltb (length buf) (offset + 10) then err unexpected_eof else do
      code ← read_u16_at buf offset (offset + 2)
      typ ← RecordType.parse code
      let offset = offset + 2
      class_code ← read_u16_at buf offset (offset + 2)
      (multicast_unique, cls) ← parse_class_code class_code
      let offset = offset + 2
      ttl ← read_u32_at buf offset (offset + 4)
      let offset = offset + 4
      rdlen ← read_u16_at buf offset (offset + 2)
      let offset = offset + 2
      if ltb (length buf) (offset + rdlen) then err unexpected_eof else do
        rdata ← slice buf offset (offset + rdlen)
        rr_data ← RrData.parse typ rdata buf
        let offset = offset + rdlen
        ok (
          record {
            name = name;
            multicast_unique = multicast_unique;
            cls = cls;
            ttl = clamp_ttl ttl;
            rr_data = rr_data;
          },
          offset,
        )

  unfoldable pub parse_records : ℕ → List ℕ → ℕ → Outcome Error (List ResourceRecord × ℕ)
  parse_records zero buf offset = ok ([], offset)
  parse_records (suc n) buf offset = do
    (r, offset) ← parse_record buf offset
    (rs, offset) ← parse_records n buf offset
    ok (r ∷ rs, offset)

  unfoldable pub parse_opt_record : List ℕ → ℕ → Outcome Error (OptRecord × ℕ)
  parse_opt_record buf offset = if ltb (length buf) (offset + 11) then err unexpected_eof else do
    let offset = offset + 1
    code ← read_u16_at buf offset (offset + 2)
    typ ← RecordType.parse code
    if not (is_opt typ) then err (invalid_type (RecordType.to_u16 typ)) else do
      let offset = offset + 2
      udp ← read_u16_at buf offset (offset + 2)
      let offset = offset + 2
      extrcode ← index buf offset
      let offset = offset + 1
      version ← index buf offset
      let offset = offset + 1
      flags ← read_u16_at buf offset (offset + 2)
      let offset = offset + 2
      rdlen ← read_u16_at buf offset (offset + 2)
      let offset = offset + 2
      if ltb (length buf) (offset + rdlen) then err unexpected_eof else do
        rdata ← slice buf offset (offset + rdlen)
        rr_data ← RrData.parse typ rdata buf
        let offset = offset + rdlen
        ok (
          record {
            udp = udp;
            extrcode = extrcode;
            version = version;
            flags = flags;
            rr_data = rr_data;
          },
          offset,
        )

  -- The loop over the additional records, from the `opt` found so far.
  unfoldable pub parse_additional :
      ℕ → List ℕ → ℕ → Option OptRecord → Outcome Error (List ResourceRecord × Option OptRecord × ℕ)
  parse_additional zero buf offset opt = ok ([], opt, offset)
  parse_additional (suc n) buf offset opt =
      if is_opt_start buf offset
      then elim opt [
        | none ↦ do
          (o, offset') ← parse_opt_record buf offset
          parse_additional n buf offset' (some o)
        | some _ ↦ err additional_opt
      ]
      else do
        (r, offset') ← parse_record buf offset
        (rs, opt', offset'') ← parse_additional n buf offset' opt
        ok (r ∷ rs, opt', offset'')

  unfoldable pub parse : List ℕ → Outcome Error Packet
  parse buf = do
    header ← Header.parse buf
    (questions, offset) ← parse_questions header.questions buf Header.size
    (answers, offset) ← parse_records header.answers buf offset
    (nameservers, offset) ← parse_records header.nameservers buf offset
    (additional, opt, offset) ← parse_additional header.additional buf offset none
    ok (record {
      header = header;
      questions = questions;
      answers = answers;
      nameservers = nameservers;
      additional = additional;
      opt = opt;
    })
