-- ===== src/DnsParser/Header/Truncated.antt =====
-- src/dns_parser/header.rs: what `set_truncated` leaves of a header.
use easyfibers.Prelude.{
  ℕ, ◌+◌, ◌*◌, ◌/◌, ◌%◌, ◌≡◌, refl, true, false, not, List, [], ◌∷◌, ◌++◌, arith, bit_and,
}
use easyfibers.Prelude.Bits.{bit_and_bit9}
use easyfibers.Prelude.Outcome.{ok}
use easyfibers.DnsParser.Error.{Error}
use easyfibers.DnsParser.ByteOrder.{BigEndian, read_u16_at-append, write_u16_at-append}
use easyfibers.DnsParser.Enums.Codes.{opcode-lt, response_code-lt}
use easyfibers.DnsParser.Enums.Opcode
use easyfibers.DnsParser.Enums.ResponseCode
use easyfibers.DnsParser.Header.{Header, parse, set_truncated}
use easyfibers.DnsParser.Header.Bytes.{IsHeader, bit-lt, flag_word, flag_word-lt, header_bytes}
use easyfibers.DnsParser.Header.RoundTrip.{parse-header_bytes}

-- `h` with every flag and code cleared but `truncated`.
abbrev pub only_truncated : Header → Header
only_truncated h = record h {
  query = true;
  opcode = Opcode.standard_query;
  authoritative = false;
  recursion_desired = false;
  recursion_available = false;
  authenticated_data = false;
  checking_disabled = false;
  response_code = ResponseCode.no_error;
}

module _ (h : Header) (v : IsHeader h) where
  only_truncated-IsHeader : IsHeader (only_truncated h)
  only_truncated-IsHeader = record {
    id = v.id;
    opcode = tt;
    response_code = tt;
    questions = v.questions;
    answers = v.answers;
    nameservers = v.nameservers;
    additional = v.additional;
  }

  word : bit_and (flag_word h) 0x200 ≡ flag_word (only_truncated h)
  unfolding flag_word Opcode.to_u16 ResponseCode.to_u8
  word = omega (
    arith,
    bit_and_bit9 (flag_word h) (flag_word-lt h v),
    opcode-lt h.opcode v.opcode,
    response_code-lt h.response_code v.response_code,
    bit-lt (not h.query),
    bit-lt h.authoritative,
    bit-lt h.truncated,
    bit-lt h.recursion_desired,
    bit-lt h.recursion_available,
  )

  module _ ⦃be : BigEndian⦄ where
    set_truncated-header_bytes :
        (rest : List ℕ)
        → set_truncated {E = Error} (header_bytes h ++ rest)
          ≡ ok (header_bytes (only_truncated h) ++ rest)
    unfolding set_truncated header_bytes
    set_truncated-header_bytes rest =
        let p = h.id / 256 ∷ h.id % 256 ∷ [] in
        let w = flag_word h in
        let halves : w / 256 * 256 + w % 256 ≡ w = omega arith in
        let s5 = h.additional / 256 ∷ h.additional % 256 ∷ rest in
        let s4 = h.nameservers / 256 ∷ h.nameservers % 256 ∷ s5 in
        let s3 = h.answers / 256 ∷ h.answers % 256 ∷ s4 in
        let s2 = h.questions / 256 ∷ h.questions % 256 ∷ s3 in
        let t = flag_word (only_truncated h) in
        rw
          (
            read_u16_at-append {E = Error} p s2 (w / 256) (w % 256) 2 4 refl refl,
            halves,
            word,
            write_u16_at-append {E = Error} p s2 (w / 256) (w % 256) 2 4 t refl refl
                (flag_word-lt (only_truncated h) only_truncated-IsHeader),
          )
          refl

    -- On a packet that starts with the bytes of a header, `set_truncated` does not set the truncated
    -- flag: the packet reads back with that flag as it was, and with every other flag and code
    -- cleared, so a response has become a query.
    pub set_truncated_lem :
        (rest : List ℕ)
        → (out : List ℕ) × (set_truncated {E = Error} (header_bytes h ++ rest) ≡ ok out)
          × (parse out ≡ ok (only_truncated h))
    set_truncated_lem rest = (
      header_bytes (only_truncated h) ++ rest,
      set_truncated-header_bytes rest,
      parse-header_bytes (only_truncated h) only_truncated-IsHeader rest,
    )
