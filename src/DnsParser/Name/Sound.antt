-- ===== src/DnsParser/Name/Sound.antt =====
-- src/dns_parser/name.rs: `scan` ends, never panics, and accepts only what spells a name.
use easyfibers.Prelude.{
  ℕ, zero, suc, ◌+◌, ◌-◌, ◌*◌, ◌%◌, ◌≤◌, ◌<◌, ◌≡◌, refl, sym, ap, ◌∙◌, subst, not, List, [], ◌∷◌,
  Option, none, some, arith, length, take, drop, All, IsByte, All-drop, length-drop, ◌==◌, ==_iff,
  leb, ltb, bit_and, lt→leb_false,
}
use easyfibers.Prelude.Outcome.{
  ◌>>=◌, Ensures, value, error, Ensures-bind, Ensures-if, Ensures-mono,
}
use easyfibers.Prelude.Slice.{slice_from, index, slice-Ensures, slice_from-Ensures}
use easyfibers.Prelude.Text.{IsAscii, is_ascii, is_ascii→All}
use easyfibers.DnsParser.ByteOrder.{BigEndian}
use easyfibers.DnsParser.Name.{Name, first_pos, labels_end, scan_fuel, scan_loop, scan}
use easyfibers.DnsParser.Name.Spells.{Spells, root, label, pointer, pieces, Spells-le}
use easyfibers.DnsParser.Name.Steps.{
  length-at, index-at, drop-label, slice-label, read_u16_at-at, pointer→le, label→lt, offset,
  pointer_shrinks, nonempty,
}

-- Where a run that spells `n` bytes from `pos` on says that the labels end.
abbrev pub Ends : Option ℕ → ℕ → ℕ → Option ℕ × ℕ → Type 0
Ends none pos n (r, p) = labels_end r p ≡ pos + n
Ends (some q) pos n (r, p) = r ≡ some q

abbrev Spelled : List ℕ → ℕ → List ℕ → Option ℕ → ℕ → Option ℕ × ℕ → Type 0
Spelled original limit d ret pos out =
    (ps : List (List ℕ)) × (n : ℕ) × Spells original limit d ps n × Ends ret pos n out

pub Ends-root : (ret : Option ℕ) (pos : ℕ) → Ends ret pos 1 (ret, pos)
Ends-root none pos = refl
Ends-root (some q) pos = refl

pub Ends-pointer :
    (ret : Option ℕ) (pos k : ℕ) (out : Option ℕ × ℕ)
    → Ends (first_pos ret pos) 0 k out
    → Ends ret pos 2 out
Ends-pointer none pos k (r, p) e = rw e
Ends-pointer (some q) pos k (r, p) e = e

pub Ends-label :
    (ret : Option ℕ) (pos b k : ℕ) (out : Option ℕ × ℕ)
    → Ends ret (pos + b + 1) k out
    → Ends ret pos (suc (b + k)) out
Ends-label none pos b k (r, p) e = omega arith
Ends-label (some q) pos b k (r, p) e = e

module _ ⦃be : BigEndian⦄ (original : List ℕ) (bytes : All IsByte original) where
  -- What the recursion gives: every run with less left to do returns, and spells.
  abbrev Runs : ℕ → Type 0
  Runs fuel =
      (parse_data : List ℕ) (pos limit : ℕ) (ret : Option ℕ) (byte : ℕ) (tail : List ℕ)
      → drop pos parse_data ≡ byte ∷ tail
      → All IsByte (byte ∷ tail)
      → limit * suc (length original) + length tail < fuel
      → Ensures (Spelled original limit (byte ∷ tail) ret pos)
          (scan_loop fuel original parse_data pos limit ret byte)

  module _ (fuel : ℕ) (run : Runs fuel) (parse_data : List ℕ) (pos limit : ℕ) (ret : Option ℕ)
      (byte : ℕ) (tail : List ℕ) (at_pos : drop pos parse_data ≡ byte ∷ tail) (wb : IsByte byte)
      (wt : All IsByte tail) (m : limit * suc (length original) + length tail < suc fuel) where
    -- The round at a pointer to an offset that is in the packet and below the limit.
    jump :
        (b : ℕ) (rest : List ℕ)
        → tail ≡ b ∷ rest
        → 192 ≤ byte
        → b < 256
        → byte % 64 * 256 + b < length original
        → byte % 64 * 256 + b < limit
        → Ensures (Spelled original limit (byte ∷ tail) ret pos) (do
          target ← slice_from original (byte % 64 * 256 + b)
          byte' ← index target 0
          scan_loop fuel original target 0 (byte % 64 * 256 + b) (first_pos ret pos) byte')
    jump b rest et hp hb inside back =
        let off : ℕ = byte % 64 * 256 + b in
        Ensures-bind (slice_from-Ensures original off (omega arith)) λ target (ed, lt).
          let (c, r, ec) = nonempty target (omega arith) in
          let w : All IsByte (c ∷ r) =
            subst (All IsByte) (sym ed ∙ ec) (All-drop IsByte off original bytes) in
          rw (index-at target 0 ec) (
            Ensures-mono
              (run target 0 off (first_pos ret pos) c r ec w (
                let lc : length target ≡ suc (length r) = ap length ec in
                let sh =
                  pointer_shrinks off limit (length original) (length tail) fuel back inside m in
                omega arith))
              λ out (ps, n, s, e). (
                pieces ps,
                2,
                rw et (
                    pointer {k = n} hp refl inside back
                      (subst (λ d. Spells original off d ps n) (sym ec ∙ ed) s) refl refl),
                Ends-pointer ret pos n out e,
              ))

    -- The round at a label that is in the slice, with a byte behind it.
    step :
        0 < byte
        → byte < 64
        → byte < length tail
        → All IsAscii (take byte tail)
        → Ensures (Spelled original limit (byte ∷ tail) ret pos) (do
          byte' ← index parse_data (pos + byte + 1)
          scan_loop fuel original parse_data (pos + byte + 1) limit ret byte')
    step nz small inside ascii =
        let (c, r, ec) = nonempty (drop byte tail) (omega (arith, length-drop byte tail)) in
        let next = drop-label parse_data pos at_pos byte ∙ ec in
        let w : All IsByte (c ∷ r) = subst (All IsByte) ec (All-drop IsByte byte tail wt) in
        let lc : length (drop byte tail) ≡ suc (length r) = ap length ec in
        rw (index-at parse_data (pos + byte + 1) next) (
          Ensures-mono
            (run parse_data (pos + byte + 1) limit ret c r next w
              (omega (arith, length-drop byte tail)))
            λ out (ps, n, s, e). (
              take byte tail ∷ ps,
              suc (byte + n),
              label {k = n} nz small inside ascii (rw ec s) refl refl,
              Ends-label ret pos byte n out e,
            ))

    round :
        Ensures
          (Spelled original limit (byte ∷ tail) ret pos)
          (scan_loop (suc fuel) original parse_data pos limit ret byte)
    unfolding scan_loop
    round =
        let len = length-at parse_data pos at_pos in
        Ensures-if (byte == 0)
          (λ z. value ([], 1, root ((==_iff byte 0).0 z) refl refl, Ends-root ret pos))
          λ nz.
            Ensures-if (leb (length parse_data) pos) (λ _. error)
              λ _.
                Ensures-if (bit_and byte 192 == 192)
                  (λ ptr.
                    Ensures-if (ltb (length parse_data) (pos + 2)) (λ _. error)
                      λ room.
                        let (b, rest, et) = nonempty tail (ground arith) in
                        let lb : b < 256 = (subst (All IsByte) et wt).0 in
                        let at2 : drop pos parse_data ≡ byte ∷ b ∷ rest =
                          at_pos ∙ ap (λ t. byte ∷ t) et in
                        rw (read_u16_at-at parse_data pos at2, offset byte b wb lb)
                          (Ensures-if (leb (length original) (byte % 64 * 256 + b)) (λ _. error)
                            λ inside.
                              Ensures-if (leb limit (byte % 64 * 256 + b)) (λ _. error)
                                λ back.
                                  jump b rest et (pointer→le byte wb ptr) lb (ground arith)
                                    (ground arith)))
                  λ _.
                    Ensures-if (bit_and byte 192 == 0)
                      (λ lab.
                        Ensures-if (ltb (length parse_data) (pos + byte + 1)) (λ _. error)
                          λ room. rw (slice-label parse_data pos at_pos byte (ground arith)) (
                            Ensures-if (not (is_ascii (take byte tail))) (λ _. error)
                              λ ascii.
                                Ensures-if (leb (length parse_data) (pos + byte + 1)) (λ _. error)
                                  λ more.
                                    step (ground arith) (label→lt byte wb lab) (ground arith)
                                      (is_ascii→All (take byte tail) (ground arith))))
                      λ _. error

  scan_loop-Spelled : (fuel : ℕ) → Runs fuel
  scan_loop-Spelled zero parse_data pos limit ret byte tail at_pos w m = elim m [ ]
  scan_loop-Spelled (suc fuel) parse_data pos limit ret byte tail at_pos (wb, wt) m =
      round fuel (scan_loop-Spelled fuel) parse_data pos limit ret byte tail at_pos wb wt m

  -- `scan` of bytes returns, whatever the packet holds: its loop ends and nothing is read out of
  -- range. A name that it returns is spelled by the front of the slice, and its labels are the
  -- bytes that spell it, to the end or to the first pointer.
  pub scan-Spells :
      (buf : List ℕ)
      → All IsByte buf
      → Ensures
          (λ name.
            (ps : List (List ℕ)) × (n : ℕ) × Spells original (length original) buf ps n
            × (name ≡ record { labels = take n buf; original = original })
            × (n ≤ length buf))
          (scan buf original)
  unfolding scan
  scan-Spells [] w = error
  scan-Spells (byte ∷ tail) w =
      rw (lt→leb_false (length (byte ∷ tail)) 0 (omega arith), index-at (byte ∷ tail) 0 refl)
        (Ensures-bind
          (scan_loop-Spelled (scan_fuel (byte ∷ tail) original) (byte ∷ tail) 0 (length original)
            none byte tail refl w (omega arith))
          λ (r, p) (ps, n, s, e).
            let le = (Spells-le s).1 in
            Ensures-bind
              (slice-Ensures (byte ∷ tail) 0 (labels_end r p) (omega arith) (omega arith))
              λ labels (el, _).
                let en : labels_end r p - 0 ≡ n = omega arith in
                let name : List ℕ → Name = λ k. record { labels = k; original = original } in
                value (ps, n, s, ap name (el ∙ ap (λ k. take k (byte ∷ tail)) en), le))
