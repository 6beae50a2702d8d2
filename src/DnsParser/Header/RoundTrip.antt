-- ===== src/DnsParser/Header/RoundTrip.antt =====
-- src/dns_parser/header.rs: reading back what was written.
use easyfibers.Prelude.{
  ℕ, suc, ◌+◌, ◌*◌, ◌/◌, ◌%◌, ◌^◌, ◌≡◌, refl, Bool, true, false, not, List, [], ◌∷◌, ◌++◌, arith,
  length, bit_and, ◌==◌, le→ltb_false,
}
use easyfibers.Prelude.Bits.{
  bit_and_bit15, bit_and_bit10, bit_and_bit9, bit_and_bit8, bit_and_bit7, bit_and_bit6,
  bit_and_bit5, bit_and_bit4, bit_and_opcode, bit_and_low4,
}
use easyfibers.Prelude.Outcome.{ok}
use easyfibers.DnsParser.Error.{Error}
use easyfibers.DnsParser.ByteOrder.{BigEndian, read_u16_at-append}
use easyfibers.DnsParser.Enums.Codes.{
  opcode-lt, response_code-lt, opcode-of_u16-to_u16, response_code-of_u8-to_u8,
}
use easyfibers.DnsParser.Enums.Opcode
use easyfibers.DnsParser.Enums.ResponseCode
use easyfibers.DnsParser.Header.{Header, parse, write}
use easyfibers.DnsParser.Header.Bytes.{
  IsHeader, bit, bit-lt, flag_word, flag_word-lt, header_bytes, write-header_bytes,
}

test_bit : (b : Bool) (n k : ℕ) → n ≡ bit b * suc k → not (n == 0) ≡ b
test_bit true n k e = ground arith
test_bit false n k e = ground arith

test_clear : (b : Bool) (n k : ℕ) → n ≡ bit (not b) * suc k → (n == 0) ≡ b
test_clear true n k e = ground arith
test_clear false n k e = ground arith

-- What the writer keeps of a header: it has no code for the two DNSSEC flags.
abbrev pub without_dnssec : Header → Header
without_dnssec h = record h { authenticated_data = false; checking_disabled = false }

halves : (n : ℕ) → n / 256 * 256 + n % 256 ≡ n
halves n = omega arith

module _ (h : Header) (v : IsHeader h) where
  abbrev o : ℕ
  o = Opcode.to_u16 h.opcode

  abbrev r : ℕ
  r = ResponseCode.to_u8 h.response_code

  abbrev w : ℕ
  w = flag_word h

  -- The fields of the sum.
  record Fields : Type 0 where
    reserved : bit_and w 0x40 ≡ 0
    query : (bit_and w 0x8000 == 0) ≡ h.query
    opcode : bit_and w 0x7800 / 2 ^ 11 ≡ o
    authoritative : not (bit_and w 0x400 == 0) ≡ h.authoritative
    truncated : not (bit_and w 0x200 == 0) ≡ h.truncated
    recursion_desired : not (bit_and w 0x100 == 0) ≡ h.recursion_desired
    recursion_available : not (bit_and w 0x80 == 0) ≡ h.recursion_available
    authenticated_data : bit_and w 0x20 ≡ 0
    checking_disabled : bit_and w 0x10 ≡ 0
    response_code : bit_and w 0xf % 256 ≡ r

  fields : Fields
  unfolding flag_word
  fields =
      let lo = opcode-lt h.opcode v.opcode in
      let lr = response_code-lt h.response_code v.response_code in
      let lq = bit-lt (not h.query) in
      let la = bit-lt h.authoritative in
      let lt = bit-lt h.truncated in
      let ld = bit-lt h.recursion_desired in
      let lw = bit-lt h.recursion_available in
      let lf = flag_word-lt h v in
      record {
        reserved = omega (arith, bit_and_bit6 w lf);
        query = test_clear h.query _ 32767 (omega (arith, bit_and_bit15 w lf));
        opcode = omega (arith, bit_and_opcode w lf);
        authoritative = test_bit h.authoritative _ 1023 (omega (arith, bit_and_bit10 w lf));
        truncated = test_bit h.truncated _ 511 (omega (arith, bit_and_bit9 w lf));
        recursion_desired = test_bit h.recursion_desired _ 255 (omega (arith, bit_and_bit8 w lf));
        recursion_available =
            test_bit h.recursion_available _ 127 (omega (arith, bit_and_bit7 w lf));
        authenticated_data = omega (arith, bit_and_bit5 w lf);
        checking_disabled = omega (arith, bit_and_bit4 w lf);
        response_code = omega (arith, bit_and_low4 w lf);
      }

  module _ ⦃be : BigEndian⦄ where
    pub parse-header_bytes :
        (rest : List ℕ) → parse (header_bytes h ++ rest) ≡ ok (without_dnssec h)
    unfolding parse header_bytes
    parse-header_bytes rest =
        let p1 = h.id / 256 ∷ h.id % 256 ∷ [] in
        let p2 = p1 ++ (w / 256 ∷ w % 256 ∷ []) in
        let p3 = p2 ++ (h.questions / 256 ∷ h.questions % 256 ∷ []) in
        let p4 = p3 ++ (h.answers / 256 ∷ h.answers % 256 ∷ []) in
        let p5 = p4 ++ (h.nameservers / 256 ∷ h.nameservers % 256 ∷ []) in
        let s5 = h.additional / 256 ∷ h.additional % 256 ∷ rest in
        let s4 = h.nameservers / 256 ∷ h.nameservers % 256 ∷ s5 in
        let s3 = h.answers / 256 ∷ h.answers % 256 ∷ s4 in
        let s2 = h.questions / 256 ∷ h.questions % 256 ∷ s3 in
        let s1 = w / 256 ∷ w % 256 ∷ s2 in
        let f = fields in
        rw
          (
            le→ltb_false (length (header_bytes h ++ rest)) 12 (omega arith),
            read_u16_at-append {E = Error} p1 s2 (w / 256) (w % 256) 2 4 refl refl,
            halves w,
            f.reserved,
            read_u16_at-append {E = Error} [] s1 (h.id / 256) (h.id % 256) 0 2 refl refl,
            halves h.id,
            f.response_code,
            response_code-of_u8-to_u8 {E = Error} h.response_code v.response_code,
            read_u16_at-append {E = Error} p2 s3 (h.questions / 256) (h.questions % 256) 4 6 refl
                refl,
            halves h.questions,
            read_u16_at-append {E = Error} p3 s4 (h.answers / 256) (h.answers % 256) 6 8 refl refl,
            halves h.answers,
            read_u16_at-append {E = Error} p4 s5 (h.nameservers / 256) (h.nameservers % 256) 8 10
                refl refl,
            halves h.nameservers,
            read_u16_at-append {E = Error} p5 rest (h.additional / 256) (h.additional % 256) 10 12
                refl refl,
            halves h.additional,
            f.query,
            f.opcode,
            opcode-of_u16-to_u16 h.opcode v.opcode,
            f.authoritative,
            f.truncated,
            f.recursion_desired,
            f.recursion_available,
            f.authenticated_data,
            f.checking_disabled,
          )
          refl

    -- A header that was written into any twelve bytes reads back, whatever follows it in the packet,
    -- as the same header with both DNSSEC flags off.
    pub parse-write :
        (buf rest : List ℕ)
        → length buf ≡ 12
        → (out : List ℕ) × (write {E = Error} h buf ≡ ok out)
          × (length out ≡ 12)
          × (parse (out ++ rest) ≡ ok (without_dnssec h))
    unfolding header_bytes
    parse-write buf rest e =
        (header_bytes h, write-header_bytes h v buf e, refl, parse-header_bytes rest)
