-- ===== src/DnsParser/Name/Complete.antt =====
-- src/dns_parser/name.rs: `scan` accepts whatever spells a name.
use easyfibers.Prelude.{
  ℕ, zero, suc, ◌+◌, ◌-◌, ◌*◌, ◌≤◌, ◌<◌, ◌≡◌, refl, sym, ap, subst, ◌∙◌, List, [], ◌∷◌, Option,
  none, arith, length, take, drop, All, IsByte, All-drop, length-drop, ◌==◌, ==_iff, lt→leb_false,
  le→ltb_false, false,
}
use easyfibers.Prelude.Outcome.{Outcome, ok}
use easyfibers.Prelude.Slice.{le→slice_from, le→slice}
use easyfibers.Prelude.Text.{All→is_ascii}
use easyfibers.DnsParser.Error.{Error}
use easyfibers.DnsParser.ByteOrder.{BigEndian}
use easyfibers.DnsParser.Name.{Name, first_pos, labels_end, scan_fuel, scan_loop, scan}
use easyfibers.DnsParser.Name.Sound.{Ends, Ends-root, Ends-label, Ends-pointer}
use easyfibers.DnsParser.Name.Spells.{Spells, root, label, pointer, Spells-le}
use easyfibers.DnsParser.Name.Steps.{
  length-at, index-at, drop-label, slice-label, read_u16_at-at, le→pointer, lt→label, offset,
  pointer_shrinks,
}

abbrev pub head : List ℕ → ℕ
head [] = 0
head (x ∷ xs) = x

pub head-of : (xs : List ℕ) → 0 < length xs → xs ≡ head xs ∷ drop 1 xs
head-of [] h = absurd (omega arith)
head-of (x ∷ xs) h = refl

pub eq_false : (a b : ℕ) → b < a → (a == b) ≡ false
eq_false a b h = ground arith

module _ ⦃be : BigEndian⦄ (original : List ℕ) (bytes : All IsByte original) where
  pub scan_loop-Spells :
      {limit n : ℕ} {d : List ℕ} {ps : List (List ℕ)}
      → Spells original limit d ps n
      → (fuel : ℕ) (parse_data : List ℕ) (pos : ℕ) (ret : Option ℕ) → drop pos parse_data ≡ d
      → All IsByte d
      → limit * suc (length original) + length d ≤ fuel
      → (out : Option ℕ × ℕ) × (scan_loop fuel original parse_data pos limit ret (head d) ≡ ok out)
        × Ends ret pos n out
  unfolding scan_loop
  scan_loop-Spells (root e p k) zero parse_data pos ret at_pos w m = absurd (omega arith)
  scan_loop-Spells (root {b} {n} e p k) (suc fuel) parse_data pos ret at_pos w m = (
    (ret, pos),
    rw ((==_iff b 0).1 e),
    subst (λ j. Ends ret pos j (ret, pos)) (sym k) (Ends-root ret pos),
  )
  scan_loop-Spells (label x y z a s p k) zero parse_data pos ret at_pos w m = absurd (omega arith)
  scan_loop-Spells (label {limit} {b} {n} {k = j} {tail} x y z a s p k) (suc fuel) parse_data pos
        ret at_pos w m =
      let len = length-at parse_data pos at_pos in
      let next = drop-label parse_data pos at_pos b in
      let here = head-of (drop b tail) (omega (arith, length-drop b tail)) in
      let (out, e, ends) =
        scan_loop-Spells s fuel parse_data (pos + b + 1) ret next (All-drop IsByte b tail w.1)
          (omega (arith, length-drop b tail)) in
      (
        out,
        rw
            (
              eq_false b 0 x,
              lt→leb_false (length parse_data) pos (omega arith),
              lt→label b y,
              le→ltb_false (length parse_data) (pos + b + 1) (omega arith),
              slice-label parse_data pos at_pos b (omega arith),
              All→is_ascii (take b tail) a,
              lt→leb_false (length parse_data) (pos + b + 1) (omega arith),
              index-at parse_data (pos + b + 1) (next ∙ here),
            )
            e,
        subst (λ i. Ends ret pos i out) (sym k) (Ends-label ret pos b j out ends),
      )
  scan_loop-Spells (pointer x q y z s p k) zero parse_data pos ret at_pos w m = absurd (omega arith)
  scan_loop-Spells (pointer {limit} {a} {b} {n} {k = j} {off} {rest} x q y z s p k) (suc fuel)
        parse_data pos ret at_pos w m =
      let len = length-at parse_data pos at_pos in
      let here = head-of (drop off original) (omega (arith, length-drop off original)) in
      let sh =
        pointer_shrinks off limit (length original) (suc (length rest)) fuel z y (omega arith) in
      let (out, e, ends) =
        scan_loop-Spells s fuel (drop off original) 0 (first_pos ret pos) refl
          (All-drop IsByte off original bytes) (omega (arith, length-drop off original)) in
      (
        out,
        rw
            (
              eq_false a 0 (omega arith),
              lt→leb_false (length parse_data) pos (omega arith),
              le→pointer a w.0 x,
              le→ltb_false (length parse_data) (pos + 2) (omega arith),
              read_u16_at-at parse_data pos at_pos,
              offset a b w.0 w.1.0,
              ← q,
              lt→leb_false (length original) off y,
              lt→leb_false limit off z,
              le→slice_from {E = Error} original off (omega arith),
              index-at (drop off original) 0 here,
            )
            e,
        subst (λ i. Ends ret pos i out) (sym k) (Ends-pointer ret pos j out ends),
      )

  -- Bytes that spell a name are scanned, and the labels are the bytes that spell it.
  pub scan-ok :
      {n : ℕ} {ps : List (List ℕ)} (buf : List ℕ)
      → All IsByte buf
      → Spells original (length original) buf ps n
      → scan buf original ≡ ok (record { labels = take n buf; original = original })
  unfolding scan
  scan-ok {n} buf w s =
      let le = Spells-le s in
      let here = head-of buf (omega arith) in
      let ((r, p), e, ends) =
        scan_loop-Spells s (scan_fuel buf original) buf 0 none refl w (omega arith) in
      rw
        (
          lt→leb_false (length buf) 0 (omega arith),
          index-at buf 0 here,
          e,
          le→slice {E = Error} buf 0 (labels_end r p) (omega arith) (omega arith),
        )
        (let name : List ℕ → Outcome Error Name =
            λ k. ok (record { labels = k; original = original }) in
          let en : labels_end r p - 0 ≡ n = omega arith in ap (λ k. name (take k buf)) en)
