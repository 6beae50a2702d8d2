-- ===== src/DnsParser/Header/Safety.antt =====
-- src/dns_parser/header.rs: what `parse` does on every input.
use easyfibers.Prelude.{
  ℕ, ◌/◌, ◌%◌, ◌^◌, ◌≤◌, not, List, arith, length, bit_and, ◌==◌, ltb, All, IsByte,
}
use easyfibers.Prelude.Bits.{bit_and_low4, bit_and_opcode}
use easyfibers.Prelude.Outcome.{Ensures, value, error, Ensures-bind, Ensures-if}
use easyfibers.DnsParser.ByteOrder.{BigEndian, read_u16_at-lt}
use easyfibers.DnsParser.Enums.Codes.{of_u8-Ensures, IsOpcode-of_u16}
use easyfibers.DnsParser.Header.Bytes.{IsHeader}
use easyfibers.DnsParser.Header.Flag
use easyfibers.DnsParser.Header.{parse}

module _ ⦃be : BigEndian⦄ where
  -- On every sequence of bytes `parse` returns, and never panics. A header that it returns has
  -- 16-bit counts and codes that can be written back, and its twelve bytes were there.
  pub parse-Ensures :
      (buf : List ℕ) → All IsByte buf → Ensures (λ h. (12 ≤ length buf) × IsHeader h) (parse buf)
  unfolding parse
  parse-Ensures buf w =
      Ensures-if (ltb (length buf) 12) (λ _. error)
        λ long.
          let n : 12 ≤ length buf = ground arith in
          Ensures-bind (read_u16_at-lt buf 2 4 w (omega arith) (omega arith)) λ flags lf.
            Ensures-if (not (bit_and flags Flag.reserved_mask == 0)) (λ _. error)
              λ _. Ensures-bind (read_u16_at-lt buf 0 2 w (omega arith) (omega arith)) λ id li.
                Ensures-bind
                  (of_u8-Ensures (bit_and flags Flag.response_code_mask % 256)
                    (omega (arith, bit_and_low4 flags lf)))
                  λ r lr.
                    Ensures-bind (read_u16_at-lt buf 4 6 w (omega arith) (omega arith)) λ q lq.
                      Ensures-bind (read_u16_at-lt buf 6 8 w (omega arith) (omega arith)) λ a la.
                        Ensures-bind (read_u16_at-lt buf 8 10 w (omega arith) (omega arith)) λ s ls.
                          Ensures-bind (read_u16_at-lt buf 10 12 w (omega arith) (omega arith))
                            λ d ld. value (
                              n,
                              record {
                                id = li;
                                opcode =
                                    IsOpcode-of_u16 (bit_and flags Flag.opcode_mask / 2 ^ 11)
                                      (omega (arith, bit_and_opcode flags lf));
                                response_code = lr;
                                questions = lq;
                                answers = la;
                                nameservers = ls;
                                additional = ld;
                              },
                            )
