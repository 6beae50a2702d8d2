-- ===== src/DnsParser/Builder/RoundTrip.antt =====
-- src/dns_parser/builder.rs: a query that was built is read back by `Packet::parse`.
use easyfibers.Prelude.{
  ℕ, ◌+◌, ◌*◌, ◌/◌, ◌%◌, ◌≤◌, ◌<◌, ◌≡◌, refl, sym, ap, subst, ◌∙◌, Bool, true, false, List, [], ◌∷◌,
  ◌++◌, none, length, length-append, take, All, All-drop, IsByte, arith, le→ltb_false, bit_and,
}
use mathlib.Core.List.{append_assoc}
use easyfibers.Prelude.Bits.{bit_and_bit15, bit_and_low15}
use easyfibers.Prelude.Outcome.{Outcome, ok}
use easyfibers.Prelude.Slice.{slice_from-append, take-append_len, drop-append_len}
use easyfibers.DnsParser.Error.{Error}
use easyfibers.DnsParser.ByteOrder.{BigEndian, read_u16_at, read_u16_at-append}
use easyfibers.DnsParser.Builder.{Builder, new, start, add_question, finish, query_header}
use easyfibers.DnsParser.Builder.WriteName.{IsLabel, encoded, split_at, encoded-Spells}
use easyfibers.DnsParser.Enums.Codes.{
  query_type-parse-to_u16, query_class-parse-to_u16, query_class-lt,
}
use easyfibers.DnsParser.Enums.QueryClass
use easyfibers.DnsParser.Enums.QueryClass.{QueryClass}
use easyfibers.DnsParser.Enums.QueryType
use easyfibers.DnsParser.Enums.QueryType.{QueryType}
use easyfibers.DnsParser.Header.Bytes.{header_bytes}
use easyfibers.DnsParser.Header.RoundTrip.{parse-header_bytes}
use easyfibers.DnsParser.Name.{Name, byte_len, scan}
use easyfibers.DnsParser.Name.Complete.{scan-ok}
use easyfibers.DnsParser.Name.Spells.{Spells, joined}
use easyfibers.DnsParser.Packet
use easyfibers.DnsParser.Packet.{
  Packet, parse_question, parse_questions, parse_records, parse_additional, parse_qclass_code,
}
use easyfibers.DnsParser.Builder.Query.{
  asked, asked-IsHeader, wire_name, codes, query_bytes, query_bytes-IsByte, start-bytes,
  add_question-bytes,
}

five_of :
    (xs : List ℕ)
    → 5 ≤ length xs
    → (z : ℕ) × (a : ℕ) × (b : ℕ) × (c : ℕ) × (d : ℕ) × (rest : List ℕ) × (xs
        ≡ z ∷ a ∷ b ∷ c ∷ d ∷ rest)
five_of [] h = absurd (omega arith)
five_of (z ∷ []) h = absurd (omega arith)
five_of (z ∷ a ∷ []) h = absurd (omega arith)
five_of (z ∷ a ∷ b ∷ []) h = absurd (omega arith)
five_of (z ∷ a ∷ b ∷ c ∷ []) h = absurd (omega arith)
five_of (z ∷ a ∷ b ∷ c ∷ d ∷ rest) h = (z, a, b, c, d, rest, refl)

-- The packet that is read back.
abbrev pub query_name : ℕ → Bool → List (List ℕ) → QueryType → QueryClass → Name
query_name id recursion ps t q = record {
  labels = wire_name ps;
  original = query_bytes id recursion ps t q;
}

abbrev pub query_packet : ℕ → Bool → List (List ℕ) → QueryType → QueryClass → Packet
query_packet id recursion ps t q = record {
  header = asked id recursion;
  questions =
      record {
        qname = query_name id recursion ps t q;
        prefer_unicast = false;
        qtype = t;
        qclass = q;
      }
      ∷ [];
  answers = [];
  nameservers = [];
  additional = [];
  opt = none;
}

-- A class code has no unicast bit.
parse_class : (q : QueryClass) → parse_qclass_code (QueryClass.to_u16 q) ≡ ok (false, q)
unfolding parse_qclass_code
parse_class q =
    let lq = query_class-lt q in
    let c = QueryClass.to_u16 q in
    let high : bit_and c 0x8000 ≡ 0 = omega (arith, bit_and_bit15 c (omega arith)) in
    let low : bit_and c 0x7fff ≡ c = omega (arith, bit_and_low15 c (omega arith)) in
    rw (high, low, query_class-parse-to_u16 q) refl

length-asked : (id : ℕ) (recursion : Bool) → length (header_bytes (asked id recursion)) ≡ 12
length-asked id recursion = unfold header_bytes in refl

module _ ⦃be : BigEndian⦄ (id : ℕ) (small : id < 65536) (recursion : Bool) (p : List ℕ)
    (ps : List (List ℕ)) (labels : All IsLabel (p ∷ ps)) (t : QueryType) (q : QueryClass) where
  name-bytes :
      scan ((wire_name (p ∷ ps)) ++ (codes t q)) (query_bytes id recursion (p ∷ ps) t q)
      ≡ ok (query_name id recursion (p ∷ ps) t q)
  name-bytes =
      let rest = (wire_name (p ∷ ps)) ++ (codes t q) in
      let n = length (encoded (p ∷ ps)) + 1 in
      let et = append_assoc (encoded (p ∷ ps)) (0 ∷ []) (codes t q) in
      let all =
        drop-append_len (header_bytes (asked id recursion)) rest 12
          (sym (length-asked id recursion)) in
      let w : All IsByte rest = subst (All IsByte) all (
        All-drop IsByte 12 (query_bytes id recursion (p ∷ ps) t q)
          (query_bytes-IsByte id small recursion p ps labels t q)) in
      let spelled =
        subst
          (λ d.
            Spells (query_bytes id recursion (p ∷ ps) t q)
              (length (query_bytes id recursion (p ∷ ps) t q)) d (p ∷ ps) n)
          (sym et)
          (encoded-Spells (query_bytes id recursion (p ∷ ps) t q)
            (length (query_bytes id recursion (p ∷ ps) t q)) (p ∷ ps) (codes t q) labels) in
      let name : List ℕ → Outcome Error Name =
        λ k. ok (record { labels = k; original = (query_bytes id recursion (p ∷ ps) t q) }) in
      scan-ok (query_bytes id recursion (p ∷ ps) t q)
        (query_bytes-IsByte id small recursion p ps labels t q) rest w spelled
      ∙ ap name (
          take-append_len (wire_name (p ∷ ps)) (codes t q) n
            (sym (length-append (encoded (p ∷ ps)) (0 ∷ []))))

  -- The two codes are read behind the name.
  codes-bytes :
      (off : ℕ)
      → off ≡ 12 + length (wire_name (p ∷ ps))
      → (read_u16_at {E = Error} (query_bytes id recursion (p ∷ ps) t q) off (off + 2)
          ≡ ok (QueryType.to_u16 t))
        × (read_u16_at {E = Error} (query_bytes id recursion (p ∷ ps) t q) (off + 2) (off + 2 + 2)
            ≡ ok (QueryClass.to_u16 q))
  codes-bytes off e =
      let ty = QueryType.to_u16 t in
      let cl = QueryClass.to_u16 q in
      let ht : ty / 256 * 256 + ty % 256 ≡ ty = omega arith in
      let hc : cl / 256 * 256 + cl % 256 ≡ cl = omega arith in
      let pre = (header_bytes (asked id recursion)) ++ (wire_name (p ∷ ps)) in
      let pre2 = pre ++ (ty / 256 ∷ ty % 256 ∷ []) in
      let l1 = length-append (header_bytes (asked id recursion)) (wire_name (p ∷ ps)) in
      let l2 = length-append pre (ty / 256 ∷ ty % 256 ∷ []) in
      let whole : (query_bytes id recursion (p ∷ ps) t q) ≡ pre ++ (codes t q) =
        sym (append_assoc (header_bytes (asked id recursion)) (wire_name (p ∷ ps)) (codes t q)) in
      let whole2 : pre ++ (codes t q) ≡ pre2 ++ (cl / 256 ∷ cl % 256 ∷ []) =
        sym (append_assoc pre (ty / 256 ∷ ty % 256 ∷ []) (cl / 256 ∷ cl % 256 ∷ [])) in
      (
        rw
            (
              whole,
              read_u16_at-append {E = Error} pre (cl / 256 ∷ cl % 256 ∷ []) (ty / 256) (ty % 256)
                  off (off + 2) (omega (arith, (length-asked id recursion))) refl,
              ht,
            )
            refl,
        rw
            (
              whole,
              whole2,
              read_u16_at-append {E = Error} pre2 [] (cl / 256) (cl % 256) (off + 2) (off + 2 + 2)
                  (omega (arith, (length-asked id recursion))) refl,
              hc,
            )
            refl,
      )

  question-bytes :
      parse_question (query_bytes id recursion (p ∷ ps) t q) 12
      ≡ ok (
        record {
          qname = (query_name id recursion (p ∷ ps) t q);
          prefer_unicast = false;
          qtype = t;
          qclass = q;
        },
        12 + length (wire_name (p ∷ ps)) + 2 + 2,
      )
  unfolding parse_question byte_len
  question-bytes =
      let off = 12 + length (wire_name (p ∷ ps)) in
      let n =
        length-append (header_bytes (asked id recursion)) ((wire_name (p ∷ ps)) ++ (codes t q)) in
      let m = length-append (wire_name (p ∷ ps)) (codes t q) in
      let (e4, e5) = codes-bytes off refl in
      rw
        (
          slice_from-append {E = Error} (header_bytes (asked id recursion))
              ((wire_name (p ∷ ps)) ++ (codes t q)) 12 (sym (length-asked id recursion)),
          name-bytes,
          le→ltb_false (length (query_bytes id recursion (p ∷ ps) t q)) (off + 4)
              (omega (arith, (length-asked id recursion))),
          e4,
          query_type-parse-to_u16 t,
          e5,
          parse_class q,
        )
        refl

  packet-bytes :
      Packet.parse (query_bytes id recursion (p ∷ ps) t q)
      ≡ ok (query_packet id recursion (p ∷ ps) t q)
  unfolding Packet.parse parse_questions parse_records parse_additional
  packet-bytes =
      rw
        (
          parse-header_bytes (asked id recursion) (asked-IsHeader id small recursion)
              ((wire_name (p ∷ ps)) ++ (codes t q)),
          question-bytes,
        )
        refl

  abbrev Builds : List ℕ → Type 0
  Builds buf =
      (b0 : Builder) × (b1 : Builder) × (start (new buf) id recursion ≡ ok (true, b0))
      × (add_question b0 (joined (p ∷ ps)) t q ≡ ok (true, b1))
      × (finish b1 ≡ length (encoded (p ∷ ps)) + 17)
      × (Packet.parse (take (finish b1) b1.buf) ≡ ok (query_packet id recursion (p ∷ ps) t q))

  parts-Builds :
      (front' room rest : List ℕ) (z a b c d : ℕ)
      → length front' ≡ 12
      → length room ≡ length (encoded (p ∷ ps))
      → Builds (front' ++ (room ++ (z ∷ a ∷ b ∷ c ∷ d ∷ rest)))
  unfolding new finish
  parts-Builds front' room rest z a b c d l0 l1 =
      let rest0 = room ++ (z ∷ a ∷ b ∷ c ∷ d ∷ rest) in
      let k1 = length-append room (z ∷ a ∷ b ∷ c ∷ d ∷ rest) in
      let n = length-append (encoded (p ∷ ps)) (0 ∷ []) in
      let m = length-append (wire_name (p ∷ ps)) (codes t q) in
      let k =
        length-append (header_bytes (asked id recursion)) ((wire_name (p ∷ ps)) ++ (codes t q)) in
      (
        record { buf = header_bytes (query_header id recursion) ++ rest0; off = 12 },
        record {
          buf = (query_bytes id recursion (p ∷ ps) t q) ++ rest;
          off = 12 + length (wire_name (p ∷ ps)) + 4;
        },
        start-bytes id small recursion front' rest0 0 l0 (omega arith),
        add_question-bytes id small recursion p ps labels t q room rest z a b c d l1,
        omega arith,
        rw
            (take-append_len (query_bytes id recursion (p ∷ ps) t q) rest
              (12 + length (wire_name (p ∷ ps)) + 4) (omega (arith, (length-asked id recursion))))
            packet-bytes,
      )

  pub parse-build :
      (buf : List ℕ)
      → length (encoded (p ∷ ps)) + 17 ≤ length buf
      → (b0 : Builder) × (b1 : Builder) × (start (new buf) id recursion ≡ ok (true, b0))
        × (add_question b0 (joined (p ∷ ps)) t q ≡ ok (true, b1))
        × (finish b1 ≡ length (encoded (p ∷ ps)) + 17)
        × (Packet.parse (take (finish b1) b1.buf) ≡ ok (query_packet id recursion (p ∷ ps) t q))
  parse-build buf long =
      let (front', rest0, e0, l0) = split_at 12 buf (omega arith) in
      let k0 : length buf ≡ length front' + length rest0 =
        ap length e0 ∙ length-append front' rest0 in
      let (room, rest1, e1, l1) = split_at (length (encoded (p ∷ ps))) rest0 (omega arith) in
      let k1 : length rest0 ≡ length room + length rest1 =
        ap length e1 ∙ length-append room rest1 in
      let (z, a, b, c, d, rest, e2) = five_of rest1 (omega arith) in
      subst Builds (sym (e0 ∙ ap (λ r. front' ++ r) (e1 ∙ ap (λ r. room ++ r) e2)))
        (parts-Builds front' room rest z a b c d l0 l1)
