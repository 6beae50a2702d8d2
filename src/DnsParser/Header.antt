-- ===== src/DnsParser/Header.antt =====
-- src/dns_parser/header.rs: the twelve bytes at the front of a packet.
pub mod Flag
pub mod Bytes
pub mod RoundTrip
pub mod Safety
pub mod Truncated
use easyfibers.Prelude.{
  ℕ, ◌+◌, ◌*◌, ◌/◌, ◌%◌, ◌^◌, Bool, true, false, not, List, ◌==◌, ltb, if◌then◌else◌, length,
  bit_and, bit_or,
}
use easyfibers.Prelude.Outcome.{Outcome, ok, err, panic, ◌>>=◌}
use easyfibers.Prelude.Slice.{slice}
use easyfibers.DnsParser.Error.{Error, header_too_short, reserved_bits_are_non_zero}
use easyfibers.DnsParser.ByteOrder.{BigEndian, read_u16_at, write_u16_at}
use easyfibers.DnsParser.Enums.Opcode
use easyfibers.DnsParser.Enums.Opcode.{Opcode}
use easyfibers.DnsParser.Enums.ResponseCode
use easyfibers.DnsParser.Enums.ResponseCode.{ResponseCode}

pub record Header : Type 0 where
  pub id : ℕ
  pub query : Bool
  pub opcode : Opcode
  pub authoritative : Bool
  pub truncated : Bool
  pub recursion_desired : Bool
  pub recursion_available : Bool
  pub authenticated_data : Bool
  pub checking_disabled : Bool
  pub response_code : ResponseCode
  pub questions : ℕ
  pub answers : ℕ
  pub nameservers : ℕ
  pub additional : ℕ

-- The bits of `flags` that `write` sets. `<<` on a u16 drops what leaves the word.
unfoldable pub write_flags : Header → ℕ
write_flags h =
    let flags = bit_or 0 (Opcode.to_u16 h.opcode * 2 ^ 11 % 2 ^ 16) in
    let flags = bit_or flags (ResponseCode.to_u8 h.response_code) in
    let flags = if not h.query then bit_or flags Flag.query else flags in
    let flags = if h.authoritative then bit_or flags Flag.authoritative else flags in
    let flags = if h.recursion_desired then bit_or flags Flag.recursion_desired else flags in
    let flags = if h.recursion_available then bit_or flags Flag.recursion_available else flags in
    if h.truncated then bit_or flags Flag.truncated else flags

module _ ⦃be : BigEndian⦄ where
  unfoldable pub parse : List ℕ → Outcome Error Header
  parse buf = if ltb (length buf) 12 then err header_too_short else do
    flags ← read_u16_at buf 2 4
    if not (bit_and flags Flag.reserved_mask == 0) then err reserved_bits_are_non_zero else do
      id ← read_u16_at buf 0 2
      response_code ← ResponseCode.of_u8 (bit_and flags Flag.response_code_mask % 256)
      questions ← read_u16_at buf 4 6
      answers ← read_u16_at buf 6 8
      nameservers ← read_u16_at buf 8 10
      additional ← read_u16_at buf 10 12
      ok (record {
        id = id;
        query = bit_and flags Flag.query == 0;
        opcode = Opcode.of_u16 (bit_and flags Flag.opcode_mask / 2 ^ 11);
        authoritative = not (bit_and flags Flag.authoritative == 0);
        truncated = not (bit_and flags Flag.truncated == 0);
        recursion_desired = not (bit_and flags Flag.recursion_desired == 0);
        recursion_available = not (bit_and flags Flag.recursion_available == 0);
        authenticated_data = not (bit_and flags Flag.authenticated_data == 0);
        checking_disabled = not (bit_and flags Flag.checking_disabled == 0);
        response_code = response_code;
        questions = questions;
        answers = answers;
        nameservers = nameservers;
        additional = additional;
      })

  module _ {E : Type 0} where
    unfoldable pub write : Header → List ℕ → Outcome E (List ℕ)
    write h buf = if not (length buf == 12) then panic else do
      let flags = write_flags h
      buf ← write_u16_at buf 0 2 h.id
      buf ← write_u16_at buf 2 4 flags
      buf ← write_u16_at buf 4 6 h.questions
      buf ← write_u16_at buf 6 8 h.answers
      buf ← write_u16_at buf 8 10 h.nameservers
      write_u16_at buf 10 12 h.additional

    unfoldable pub set_truncated : List ℕ → Outcome E (List ℕ)
    set_truncated buf = do
      oldflags ← read_u16_at buf 2 4
      write_u16_at buf 2 4 (bit_and oldflags Flag.truncated)

abbrev pub size : ℕ
size = 12
