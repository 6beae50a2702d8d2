-- ===== src/DnsParser/Name/Display.antt =====
-- src/dns_parser/name.rs: `Display` of a name that `scan` made.
use easyfibers.Prelude.{
  ℕ, zero, suc, ◌+◌, ◌*◌, ◌≤◌, ◌<◌, ◌≡◌, refl, ap, ◌∙◌, List, [], ◌∷◌, ◌++◌, arith, length, take,
  drop, All, IsByte, All-drop, length-drop, length-take, ◌==◌, ==_iff, take-take, drop-take,
  if◌then◌else◌, false,
}
use easyfibers.Prelude.Outcome.{ok, Ensures, Ensures-mono}
use easyfibers.Prelude.Slice.{le→slice_from}
use easyfibers.Prelude.Text.{is_utf8-ascii}
use easyfibers.DnsParser.Error.{Error}
use easyfibers.DnsParser.ByteOrder.{BigEndian}
use easyfibers.DnsParser.Name.{scan, fmt, dot, scan_fuel}
use easyfibers.DnsParser.Name.Sound.{scan-Spells}
use easyfibers.DnsParser.Name.Complete.{scan-ok, eq_false}
use easyfibers.DnsParser.Name.Spells.{
  Spells, root, label, pointer, pieces, dotted, joined, Spells-limit,
}
use easyfibers.DnsParser.Name.Steps.{
  index-at, drop-label, slice-label, read_u16_at-at, le→pointer, lt→label, offset, pointer_shrinks,
}

-- What is printed from `pos` on: at the front of a name there is no dot before the first piece.
abbrev printed : ℕ → List (List ℕ) → List ℕ
printed pos ps = if pos == 0 then joined ps else dotted ps

pos_false : (pos : ℕ) → (suc pos == 0) ≡ false
pos_false pos = ground arith

printed-nil : (pos : ℕ) → printed pos [] ≡ []
unfolding joined dotted
printed-nil zero = refl
printed-nil (suc pos) = rw (pos_false pos)

printed-cons :
    (pos e : ℕ) (p : List ℕ) (ps : List (List ℕ))
    → 0 < e
    → dot pos ++ (p ++ printed e ps) ≡ printed pos (p ∷ ps)
unfolding joined dotted
printed-cons pos zero p ps h = elim h [ ]
printed-cons zero (suc e) p ps h = rw (pos_false e)
printed-cons (suc pos) (suc e) p ps h = rw (pos_false e, pos_false pos)

printed-pieces : (pos : ℕ) (qs : List (List ℕ)) → dot pos ++ joined qs ≡ printed pos (pieces qs)
unfolding joined dotted
printed-pieces zero [] = refl
printed-pieces zero (q ∷ qs) = refl
printed-pieces (suc pos) [] = rw (pos_false pos)
printed-pieces (suc pos) (q ∷ qs) = rw (pos_false pos)

take-suc :
    (b k : ℕ) (tail : List ℕ) {n : ℕ} → n ≡ suc (b + k) → take n (b ∷ tail) ≡ b ∷ take (b + k) tail
take-suc b k tail e = rw e

module _ ⦃be : BigEndian⦄ (original : List ℕ) (bytes : All IsByte original) where
  fmt-Spells :
      {limit n : ℕ} {d : List ℕ} {ps : List (List ℕ)}
      → Spells original limit d ps n
      → (fuel : ℕ) (buf : List ℕ) (pos : ℕ) → drop pos buf ≡ take n d
      → All IsByte d
      → limit * suc (length original) + length d ≤ fuel
      → fmt fuel buf original pos ≡ ok (printed pos ps)
  unfolding fmt
  fmt-Spells (root e p k) zero buf pos at_pos w m = absurd (omega arith)
  fmt-Spells (root {b} {rest} e p k) (suc fuel) buf pos at_pos w m =
      let at1 : drop pos buf ≡ b ∷ [] = at_pos ∙ rw k in
      rw (index-at buf pos at1, (==_iff b 0).1 e, p, printed-nil pos) refl
  fmt-Spells (label x y z a s p k) zero buf pos at_pos w m = absurd (omega arith)
  fmt-Spells (label {b} {k = j} {tail} {qs} x y z a s p k) (suc fuel) buf pos at_pos w m =
      let at1 = at_pos ∙ take-suc b j tail k in
      let next = drop-label buf pos at1 b ∙ drop-take b j tail in
      rw
        (
          index-at buf pos at1,
          eq_false b 0 x,
          lt→label b y,
          slice-label buf pos at1 b (omega (arith, length-take (b + j) tail)),
          take-take b j tail,
          is_utf8-ascii (take b tail) a,
          fmt-Spells s fuel buf (pos + b + 1) next (All-drop IsByte b tail w.1)
              (omega (arith, length-drop b tail)),
          p,
        )
        (ap ok (printed-cons pos (pos + b + 1) (take b tail) qs (omega arith)))
  fmt-Spells (pointer x q y z s p k) zero buf pos at_pos w m = absurd (omega arith)
  fmt-Spells (pointer {limit} {a} {b} {k = j} {off} {rest} {qs} x q y z s p k) (suc fuel) buf pos
        at_pos w m =
      let at1 : drop pos buf ≡ a ∷ b ∷ [] = at_pos ∙ rw k in
      let sh =
        pointer_shrinks off limit (length original) (suc (length rest)) fuel z y (omega arith) in
      let wd = All-drop IsByte off original bytes in
      rw
        (
          index-at buf pos at1,
          eq_false a 0 (omega arith),
          le→pointer a w.0 x,
          read_u16_at-at buf pos at1,
          offset a b w.0 w.1.0,
          ← q,
          le→slice_from {E = Error} original off (omega arith),
          scan-ok original bytes (drop off original) wd (Spells-limit (omega arith) s),
          fmt-Spells s fuel (take j (drop off original)) 0 refl wd
              (omega (arith, length-drop off original)),
          p,
        )
        (ap ok (printed-pieces pos qs))

  -- A name that `scan` returned is printed without a panic, in as many rounds as `scan` was given,
  -- and the text is the pieces that the bytes spell with dots between them.
  pub fmt-scan :
      (buf : List ℕ)
      → All IsByte buf
      → Ensures
          (λ name.
            (ps : List (List ℕ)) × (n : ℕ) × Spells original (length original) buf ps n
            × (fmt (scan_fuel buf original) name.labels name.original 0 ≡ ok (joined ps)))
          (scan buf original)
  fmt-scan buf w = Ensures-mono (scan-Spells original bytes buf w) λ name (ps, n, s, e, le).
      (ps, n, s, rw e (fmt-Spells s (scan_fuel buf original) (take n buf) 0 refl w (omega arith)))
