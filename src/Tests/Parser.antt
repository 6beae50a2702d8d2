-- ===== src/Tests/Parser.antt =====
-- src/dns_parser/parser.rs, src/dns_parser/name.rs, src/dns_parser/header.rs, src/dns_parser/rrdata.rs and src/dns.rs on concrete packets.
use easyfibers.Prelude.{
  ℕ, ◌≡◌, ◌≤◌, refl, List, [], ◌∷◌, some, arith, All, IsByte, length, take, ◌⊎◌, ◌↔◌,
}
use easyfibers.Prelude.Outcome.{ok, err, panic, Ensures}
use easyfibers.DnsParser.Error.{Error, bad_pointer}
use easyfibers.DnsParser.Packet
use easyfibers.DnsParser.Packet.{Packet}
use easyfibers.DnsParser.Packet.Safety.{Counted, parse-Counted}
use easyfibers.DnsParser.Name.{scan, scan_loop, byte_len, fmt, scan_fuel}
use easyfibers.DnsParser.Name.Spells.{Spells, joined, pieces, root, label, pointer}
use easyfibers.DnsParser.Name.Sound.{scan-Spells}
use easyfibers.DnsParser.Name.Complete.{scan-ok}
use easyfibers.DnsParser.Name.Display.{fmt-scan}
use easyfibers.DnsParser.Enums.RecordType
use easyfibers.DnsParser.RrData
use easyfibers.DnsParser.Header
use easyfibers.Dns.{IpAddr, v4, dns_parse, first_address}
use easyfibers.Prelude.Slice.{index, slice, slice_from}
use easyfibers.Prelude.Text.{is_ascii, is_utf8}
use easyfibers.DnsParser.ByteOrder.{read_u16_at, read_u32_at}
use easyfibers.DnsParser.Enums.QueryType
use easyfibers.DnsParser.Enums.QueryClass
use easyfibers.DnsParser.Enums.Class
use easyfibers.DnsParser.Enums.Opcode
use easyfibers.DnsParser.Enums.ResponseCode
use easyfibers.Dns.Answer.{IsFirst, dns_parse_lem}
use easyfibers.Tests.Network.{big_endian, all_below_lem, response, three_names, zz}

dns_parse_run : dns_parse response ≡ ok (some (v4 0x5db8d822))
unfolding dns_parse first_address Packet.parse Packet.parse_questions Packet.parse_question
    Packet.parse_qclass_code Packet.parse_records Packet.parse_record Packet.parse_class_code
    Packet.parse_additional Header.parse QueryType.parse QueryClass.parse Class.parse
    RecordType.parse RrData.parse ResponseCode.of_u8 Opcode.of_u16 byte_len read_u32_at scan
    scan_loop index slice slice_from is_ascii read_u16_at
dns_parse_run = refl

dns_parse_short : dns_parse (6 ∷ []) ≡ panic
unfolding dns_parse Packet.parse Header.parse
dns_parse_short = refl

scan_last_name : scan zz three_names ≡ ok (record { labels = zz; original = three_names })
unfolding scan scan_loop index slice slice_from is_ascii read_u16_at
scan_last_name = refl

-- `parse_badpointer_same_offset`: a pointer to itself.
scan_to_itself : scan (0xc0 ∷ 0 ∷ []) (0xc0 ∷ 0 ∷ []) ≡ err bad_pointer
unfolding scan scan_loop index slice slice_from is_ascii read_u16_at
scan_to_itself = refl

fmt_last_name :
    fmt 9 zz three_names 0 ≡ ok (b'z' ∷ b'z' ∷ b'.' ∷ b'y' ∷ b'y' ∷ b'.' ∷ b'x' ∷ b'x' ∷ [])
unfolding fmt is_utf8 scan scan_loop index slice slice_from is_ascii read_u16_at
fmt_last_name = refl

response-bytes : All IsByte response
response-bytes = all_below_lem response refl

three_names-bytes : All IsByte three_names
three_names-bytes = all_below_lem three_names refl

zz-bytes : All IsByte zz
zz-bytes = all_below_lem zz refl

parse-Counted_example : Ensures Counted (Packet.parse response)
parse-Counted_example = parse-Counted response response-bytes

dns_parse_lem_example :
    ((p : Packet) × (Packet.parse response ≡ ok p)
      × ((ip : IpAddr) → (dns_parse response ≡ ok (some ip)) ↔ IsFirst ip p.answers))
    ⊎ ((e : Error) × (Packet.parse response ≡ err e) × (dns_parse response ≡ panic))
dns_parse_lem_example = dns_parse_lem response response-bytes

scan-Spells_example :
    Ensures
      (λ name.
        (ps : List (List ℕ)) × (n : ℕ) × Spells three_names (length three_names) zz ps n
        × (name ≡ record { labels = take n zz; original = three_names })
        × (n ≤ length zz))
      (scan zz three_names)
scan-Spells_example = scan-Spells three_names three_names-bytes zz zz-bytes

fmt-scan_example :
    Ensures
      (λ name.
        (ps : List (List ℕ)) × (n : ℕ) × Spells three_names (length three_names) zz ps n
        × (fmt (scan_fuel zz three_names) name.labels name.original 0 ≡ ok (joined ps)))
      (scan zz three_names)
fmt-scan_example = fmt-scan three_names three_names-bytes zz zz-bytes

-- `zz`, then a pointer to `yy`, then a pointer to `xx`.
zz-Spells :
    Spells three_names 14 zz
      ((b'z' ∷ b'z' ∷ []) ∷ pieces ((b'y' ∷ b'y' ∷ []) ∷ pieces ((b'x' ∷ b'x' ∷ []) ∷ [])))
      5
zz-Spells =
    label (omega arith) (omega arith) (omega arith) (omega arith, (omega arith, tt))
      (pointer (omega arith) refl (omega arith) (omega arith)
        (label (omega arith) (omega arith) (omega arith) (omega arith, (omega arith, tt))
          (pointer (omega arith) refl (omega arith) (omega arith)
            (label (omega arith) (omega arith) (omega arith) (omega arith, (omega arith, tt))
              (root refl refl refl) refl refl)
            refl refl)
          refl refl)
        refl refl)
      refl refl

scan-ok_example : scan zz three_names ≡ ok (record { labels = zz; original = three_names })
scan-ok_example = scan-ok three_names three_names-bytes zz zz-bytes zz-Spells
