-- ===== src/DnsParser/Packet/Safety.antt =====
-- src/dns_parser/parser.rs: no packet makes `Packet::parse` panic, and its sections have the lengths
-- that the header says.
use easyfibers.Prelude.{
  ℕ, zero, suc, ◌+◌, ◌≤◌, ◌<◌, ◌≡◌, refl, not, List, length, All, All-drop, IsByte, ltb, arith,
  subst, sym, ap, Option, none, some, bit_and, All-take, take, drop, ◌-◌,
}
use easyfibers.Prelude.Outcome.{
  Outcome, Ensures, value, error, Ensures-bind, Ensures-if, Ensures-mono,
}
use easyfibers.Prelude.Slice.{slice-Ensures, slice_from-Ensures, index-Ensures}
use easyfibers.DnsParser.Error.{Error}
use easyfibers.DnsParser.ByteOrder.{BigEndian, read_u16_at-Ensures, read_u32_at-Ensures}
use easyfibers.DnsParser.Enums.Codes.{
  query_type-Returns, query_class-Returns, record_type-Returns, class-Returns,
}
use easyfibers.DnsParser.Header
use easyfibers.DnsParser.Header.Safety
use easyfibers.DnsParser.Name.{byte_len, scan}
use easyfibers.DnsParser.RrData.Safety.{scan-byte_len, parse-Returns}
use easyfibers.DnsParser.Packet.{
  OptRecord, Packet, parse_qclass_code, parse_class_code, parse_question, parse_questions,
  parse_record, parse_records, parse_opt_record, parse_additional, is_opt, is_opt_start, parse,
}

qclass_code-Returns : (v : ℕ) → Ensures (λ _. Unit {0}) (parse_qclass_code v)
unfolding parse_qclass_code
qclass_code-Returns v = Ensures-bind (query_class-Returns (bit_and v 0x7fff)) λ _ _. value tt

class_code-Returns : (v : ℕ) → Ensures (λ _. Unit {0}) (parse_class_code v)
unfolding parse_class_code
class_code-Returns v = Ensures-bind (class-Returns (bit_and v 0x7fff)) λ _ _. value tt

-- The one OPT record is counted in the header's number of additional records.
abbrev pub opt_count : Option OptRecord → ℕ
opt_count none = 0
opt_count (some _) = 1

-- What the header counts.
pub record Counted (p : Packet) : Type 0 where
  pub questions : length p.questions ≡ p.header.questions
  pub answers : length p.answers ≡ p.header.answers
  pub nameservers : length p.nameservers ≡ p.header.nameservers
  pub additional : length p.additional + opt_count p.opt ≡ p.header.additional

module _ ⦃be : BigEndian⦄ (buf : List ℕ) (bytes : All IsByte buf) where
  -- A call that moves the offset on inside the packet.
  abbrev Moves : {A : Type 0} → ℕ → Outcome Error (A × ℕ) → Type 0
  Moves offset m = Ensures (λ out. (offset < out.1) × (out.1 ≤ length buf)) m

  scan_name :
      (offset : ℕ) (rest : List ℕ)
      → rest ≡ drop offset buf
      → length rest ≡ length buf - offset
      → Ensures (λ name. byte_len name ≤ length buf - offset) (scan rest buf)
  scan_name offset rest e l =
      rw (← l) (
        scan-byte_len buf bytes rest
          (subst (All IsByte) (sym e) (All-drop IsByte offset buf bytes)))

  question-Moves : (offset : ℕ) → offset ≤ length buf → Moves offset (parse_question buf offset)
  unfolding parse_question
  question-Moves offset h = Ensures-bind (slice_from-Ensures buf offset h) λ rest (e, l).
      Ensures-bind (scan_name offset rest e l) λ name ln.
        let o = offset + byte_len name in
        Ensures-if (ltb (length buf) (o + 4)) (λ _. error)
          λ room.
            let r : o + 4 ≤ length buf = ground arith in
            Ensures-bind (read_u16_at-Ensures buf o (o + 2) (omega arith) (omega arith)) λ c _.
              Ensures-bind (query_type-Returns c) λ t _.
                Ensures-bind
                  (read_u16_at-Ensures buf (o + 2) (o + 2 + 2) (omega arith) (omega arith))
                  λ d _.
                    Ensures-bind (qclass_code-Returns d) λ _ _. value (omega arith, omega arith)

  rdata-bytes : (i j : ℕ) (s : List ℕ) → s ≡ take (j - i) (drop i buf) → All IsByte s
  rdata-bytes i j s e =
      subst (All IsByte) (sym e)
        (All-take IsByte (j - i) (drop i buf) (All-drop IsByte i buf bytes))

  record-Moves : (offset : ℕ) → offset ≤ length buf → Moves offset (parse_record buf offset)
  unfolding parse_record
  record-Moves offset h = Ensures-bind (slice_from-Ensures buf offset h) λ rest (e, l).
      Ensures-bind (scan_name offset rest e l) λ name ln.
        let o = offset + byte_len name in
        Ensures-if (ltb (length buf) (o + 10)) (λ _. error)
          λ room.
            let r : o + 10 ≤ length buf = ground arith in
            Ensures-bind (read_u16_at-Ensures buf o (o + 2) (omega arith) (omega arith)) λ c _.
              Ensures-bind (record_type-Returns c) λ t _.
                Ensures-bind
                  (read_u16_at-Ensures buf (o + 2) (o + 2 + 2) (omega arith) (omega arith))
                  λ d _. Ensures-bind (class_code-Returns d) λ _ _.
                    Ensures-bind
                      (read_u32_at-Ensures buf (o + 2 + 2) (o + 2 + 2 + 4) (omega arith)
                        (omega arith))
                      λ ttl _.
                        Ensures-bind
                          (read_u16_at-Ensures buf (o + 2 + 2 + 4) (o + 2 + 2 + 4 + 2) (omega arith)
                            (omega arith))
                          λ rdlen _.
                            let p = o + 2 + 2 + 4 + 2 in
                            Ensures-if (ltb (length buf) (p + rdlen)) (λ _. error)
                              λ fits.
                                let f : p + rdlen ≤ length buf = ground arith in
                                Ensures-bind (slice-Ensures buf p (p + rdlen) (omega arith) f)
                                  λ rdata (er, _).
                                    Ensures-bind
                                      (parse-Returns buf bytes t rdata
                                        (rdata-bytes p (p + rdlen) rdata er))
                                      λ _ _. value (omega arith, omega arith)

  opt_record-Moves : (offset : ℕ) → Moves offset (parse_opt_record buf offset)
  unfolding parse_opt_record
  opt_record-Moves offset =
      Ensures-if (ltb (length buf) (offset + 11)) (λ _. error)
        λ room.
          let r : offset + 11 ≤ length buf = ground arith in
          let o = offset + 1 in
          Ensures-bind (read_u16_at-Ensures buf o (o + 2) (omega arith) (omega arith)) λ c _.
            Ensures-bind (record_type-Returns c) λ t _.
              Ensures-if (not (is_opt t)) (λ _. error)
                λ _.
                  Ensures-bind
                    (read_u16_at-Ensures buf (o + 2) (o + 2 + 2) (omega arith) (omega arith))
                    λ _ _. Ensures-bind (index-Ensures buf (o + 2 + 2) (omega arith)) λ _ _.
                      Ensures-bind (index-Ensures buf (o + 2 + 2 + 1) (omega arith)) λ _ _.
                        let q = o + 2 + 2 + 1 + 1 in
                        Ensures-bind (read_u16_at-Ensures buf q (q + 2) (omega arith) (omega arith))
                          λ _ _.
                            Ensures-bind
                              (read_u16_at-Ensures buf (q + 2) (q + 2 + 2) (omega arith)
                                (omega arith))
                              λ rdlen _.
                                let p = q + 2 + 2 in
                                Ensures-if (ltb (length buf) (p + rdlen)) (λ _. error)
                                  λ fits.
                                    let f : p + rdlen ≤ length buf = ground arith in
                                    Ensures-bind (slice-Ensures buf p (p + rdlen) (omega arith) f)
                                      λ rdata (er, _).
                                        Ensures-bind
                                          (parse-Returns buf bytes t rdata
                                            (rdata-bytes p (p + rdlen) rdata er))
                                          λ _ _. value (omega arith, omega arith)

  -- A loop that reads `n` items.
  abbrev Reads : {A : Type 0} → ℕ → Outcome Error (List A × ℕ) → Type 0
  Reads n m = Ensures (λ out. (length out.0 ≡ n) × (out.1 ≤ length buf)) m

  questions-Reads : (n offset : ℕ) → offset ≤ length buf → Reads n (parse_questions n buf offset)
  unfolding parse_questions
  questions-Reads zero offset h = value (refl, h)
  questions-Reads (suc n) offset h =
      Ensures-bind (question-Moves offset h) λ (q, o) (_, k).
        Ensures-bind (questions-Reads n o k) λ (qs, o') (l, k'). value (ap suc l, k')

  records-Reads : (n offset : ℕ) → offset ≤ length buf → Reads n (parse_records n buf offset)
  unfolding parse_records
  records-Reads zero offset h = value (refl, h)
  records-Reads (suc n) offset h =
      Ensures-bind (record-Moves offset h)
        λ (q, o) (_, k). Ensures-bind (records-Reads n o k) λ (qs, o') (l, k'). value (ap suc l, k')

  additional-Reads :
      (n offset : ℕ) (opt : Option OptRecord)
      → offset ≤ length buf
      → Ensures
          (λ (rs, opt', o). length rs + opt_count opt' ≡ n + opt_count opt)
          (parse_additional n buf offset opt)
  unfolding parse_additional
  additional-Reads zero offset opt h = value (omega arith)
  additional-Reads (suc n) offset none h =
      Ensures-if (is_opt_start buf offset)
        (λ _.
          Ensures-bind (opt_record-Moves offset)
            λ (o, p) (_, k). Ensures-mono (additional-Reads n p (some o) k) λ out e. omega arith)
        λ _. Ensures-bind (record-Moves offset h) λ (r, o) (_, k).
          Ensures-bind (additional-Reads n o none k) λ (rs, opt', o') e. value (omega arith)
  additional-Reads (suc n) offset (some p) h =
      Ensures-if (is_opt_start buf offset) (λ _. error)
        λ _. Ensures-bind (record-Moves offset h) λ (r, o) (_, k).
          Ensures-bind (additional-Reads n o (some p) k) λ (rs, opt', o') e. value (omega arith)

  -- On every sequence of bytes `Packet::parse` returns, with a packet or an error: it never reads
  -- out of range, and its loops end. The sections of a packet that it returns have the lengths that
  -- the header says, the OPT record counted among the additional ones.
  pub parse-Counted : Ensures Counted (parse buf)
  unfolding parse
  parse-Counted = Ensures-bind (Safety.parse-Ensures buf bytes) λ h (l, v).
      Ensures-bind (questions-Reads h.questions Header.size l) λ (qs, o) (lq, k).
        Ensures-bind (records-Reads h.answers o k) λ (ans, o1) (la, k1).
          Ensures-bind (records-Reads h.nameservers o1 k1) λ (nss, o2) (ln, k2).
            Ensures-bind (additional-Reads h.additional o2 none k2) λ (ads, opt, o3) le.
              value (record {
                questions = lq;
                answers = la;
                nameservers = ln;
                additional = omega arith;
              })
