-- ===== src/DnsParser/RrData/Safety.antt =====
-- src/dns_parser/rrdata.rs: no record data makes `parse` panic or run on.
use easyfibers.Prelude.{
  ℕ, zero, suc, ◌+◌, ◌≤◌, not, List, [], ◌++◌, length, length-take, All, All-drop, IsByte, ltb,
  ◌==◌, arith, subst, sym,
}
use easyfibers.Prelude.Outcome.{
  Outcome, ok, Ensures, value, error, Ensures-bind, Ensures-if, Ensures-mono, ◌>>=◌,
}
use easyfibers.Prelude.Slice.{slice-Ensures, slice_from-Ensures, index-Ensures}
use easyfibers.Prelude.Text.{is_utf8}
use easyfibers.DnsParser.Error.{Error}
use easyfibers.DnsParser.ByteOrder.{
  BigEndian, read_u32-Ensures, read_u16_at-Ensures, read_u32_at-Ensures,
}
use easyfibers.DnsParser.Enums.RecordType.{RecordType}
use easyfibers.DnsParser.Name.{Name, byte_len, scan}
use easyfibers.DnsParser.Name.Sound.{scan-Spells}
use easyfibers.DnsParser.RrData.{RrData, txt_loop, parse_soa, parse_aaaa, parse}

abbrev Returns : {A : Type 0} → Outcome Error A → Type 0
Returns m = Ensures (λ _. Unit {0}) m

txt_loop-Returns :
    (fuel : ℕ) (rdata : List ℕ) (pos : ℕ) (ret : List ℕ)
    → length rdata ≤ pos + fuel
    → Returns (txt_loop fuel rdata pos ret)
unfolding txt_loop
txt_loop-Returns zero rdata pos ret h =
    Ensures-if (not (ltb pos (length rdata))) (λ _. value tt) λ more. absurd (ground arith)
txt_loop-Returns (suc fuel) rdata pos ret h =
    Ensures-if (not (ltb pos (length rdata))) (λ _. value tt)
      λ more. Ensures-bind (index-Ensures rdata pos (ground arith)) λ rdlen _.
        Ensures-if (ltb (length rdata) (rdlen + (pos + 1))) (λ _. error)
          λ fits.
            Ensures-bind
              (slice-Ensures rdata (pos + 1) (pos + 1 + rdlen) (omega arith) (ground arith))
              λ val _.
                Ensures-if (not (is_utf8 val)) (λ _. error)
                  λ _. txt_loop-Returns fuel rdata (pos + 1 + rdlen) (ret ++ val) (omega arith)

module _ ⦃be : BigEndian⦄ (original : List ℕ) (bytes : All IsByte original) where
  -- A scanned name takes up no more than there is.
  pub scan-byte_len :
      (buf : List ℕ)
      → All IsByte buf
      → Ensures (λ name. byte_len name ≤ length buf) (scan buf original)
  unfolding byte_len
  scan-byte_len buf w =
      Ensures-mono (scan-Spells original bytes buf w)
        λ name (ps, n, s, e, le). rw e (omega (arith, length-take n buf))

  soa-Returns : (rdata : List ℕ) → All IsByte rdata → Returns (parse_soa rdata original)
  unfolding parse_soa
  soa-Returns rdata w = Ensures-bind (scan-byte_len rdata w) λ primary lp.
      Ensures-bind (slice_from-Ensures rdata (byte_len primary) lp) λ rest (e, l).
        let wr = subst (All IsByte) (sym e) (All-drop IsByte (byte_len primary) rdata w) in
        Ensures-bind (scan-byte_len rest wr) λ mailbox lm.
          Ensures-bind
            (slice_from-Ensures rdata (byte_len primary + byte_len mailbox) (omega arith))
            λ rest' (e', l').
              let pos = byte_len primary + byte_len mailbox in
              Ensures-if (ltb (length rest') 20) (λ _. error)
                λ long.
                  let room : pos + 20 ≤ length rdata = ground arith in
                  Ensures-bind (read_u32_at-Ensures rdata pos (pos + 4) (omega arith) (omega arith))
                    λ _ _.
                      Ensures-bind
                        (read_u32_at-Ensures rdata (pos + 4) (pos + 8) (omega arith) (omega arith))
                        λ _ _.
                          Ensures-bind
                            (read_u32_at-Ensures rdata (pos + 8) (pos + 12) (omega arith)
                              (omega arith))
                            λ _ _.
                              Ensures-bind
                                (read_u32_at-Ensures rdata (pos + 12) (pos + 16) (omega arith)
                                  (omega arith))
                                λ _ _.
                                  Ensures-bind
                                    (read_u32_at-Ensures rdata (pos + 16) (pos + 20) (omega arith)
                                      (omega arith))
                                    λ _ _. value tt

  aaaa-Returns : (rdata : List ℕ) → 16 ≤ length rdata → Returns (parse_aaaa rdata)
  unfolding parse_aaaa
  aaaa-Returns rdata l =
      Ensures-bind (read_u16_at-Ensures rdata 0 2 (omega arith) (omega arith)) λ _ _.
        Ensures-bind (read_u16_at-Ensures rdata 2 4 (omega arith) (omega arith)) λ _ _.
          Ensures-bind (read_u16_at-Ensures rdata 4 6 (omega arith) (omega arith)) λ _ _.
            Ensures-bind (read_u16_at-Ensures rdata 6 8 (omega arith) (omega arith)) λ _ _.
              Ensures-bind (read_u16_at-Ensures rdata 8 10 (omega arith) (omega arith)) λ _ _.
                Ensures-bind (read_u16_at-Ensures rdata 10 12 (omega arith) (omega arith)) λ _ _.
                  Ensures-bind (read_u16_at-Ensures rdata 12 14 (omega arith) (omega arith)) λ _ _.
                    Ensures-bind (read_u16_at-Ensures rdata 14 16 (omega arith) (omega arith))
                      λ _ _. value tt

  name-Returns :
      (make : Name → RrData) (rdata : List ℕ)
      → All IsByte rdata
      → Returns (scan rdata original >>= λ name. ok (make name))
  name-Returns make rdata w = Ensures-bind (scan-byte_len rdata w) λ _ _. value tt

  -- On every type and on all bytes `parse` returns, with data or an error.
  pub parse-Returns :
      (typ : RecordType) (rdata : List ℕ) → All IsByte rdata → Returns (parse typ rdata original)
  unfolding parse
  parse-Returns RecordType.a rdata w =
      Ensures-if (not (length rdata == 4)) (λ _. error)
        λ l. Ensures-bind (read_u32-Ensures rdata (ground arith)) λ _ _. value tt
  parse-Returns RecordType.aaaa rdata w =
      Ensures-if (not (length rdata == 16)) (λ _. error) λ l. aaaa-Returns rdata (ground arith)
  parse-Returns RecordType.cname rdata w = name-Returns RrData.cname rdata w
  parse-Returns RecordType.ns rdata w = name-Returns RrData.ns rdata w
  parse-Returns RecordType.mx rdata w =
      Ensures-if (ltb (length rdata) 3) (λ _. error)
        λ l.
          let n : 3 ≤ length rdata = ground arith in
          Ensures-bind (read_u16_at-Ensures rdata 0 2 (omega arith) (omega arith)) λ p _.
            Ensures-bind (slice_from-Ensures rdata 2 (omega arith)) λ rest (e, _).
              name-Returns (RrData.mx p) rest
                (subst (All IsByte) (sym e) (All-drop IsByte 2 rdata w))
  parse-Returns RecordType.ptr rdata w = name-Returns RrData.ptr rdata w
  parse-Returns RecordType.soa rdata w = soa-Returns rdata w
  parse-Returns RecordType.srv rdata w =
      Ensures-if (ltb (length rdata) 7) (λ _. error)
        λ l.
          let n : 7 ≤ length rdata = ground arith in
          Ensures-bind (read_u16_at-Ensures rdata 0 2 (omega arith) (omega arith)) λ p _.
            Ensures-bind (read_u16_at-Ensures rdata 2 4 (omega arith) (omega arith)) λ q _.
              Ensures-bind (read_u16_at-Ensures rdata 4 6 (omega arith) (omega arith)) λ r _.
                Ensures-bind (slice_from-Ensures rdata 6 (omega arith)) λ rest (e, _).
                  name-Returns (RrData.srv p q r) rest
                    (subst (All IsByte) (sym e) (All-drop IsByte 6 rdata w))
  parse-Returns RecordType.txt rdata w =
      Ensures-if (ltb (length rdata) 1) (λ _. error)
        λ l. txt_loop-Returns (length rdata) rdata 0 [] (omega arith)
  parse-Returns _ rdata w = value tt
