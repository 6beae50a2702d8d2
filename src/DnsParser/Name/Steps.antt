-- ===== src/DnsParser/Name/Steps.antt =====
-- src/dns_parser/name.rs: the slices that the loops take at a position, by the bytes from there on.
use easyfibers.Prelude.{
  ℕ, suc, ◌+◌, ◌-◌, ◌*◌, ◌≤◌, ◌<◌, ◌≡◌, refl, sym, ap, ◌∙◌, List, [], ◌∷◌, length, take, drop,
  get_elem?, get_elem?-drop, length-drop, le→leb, arith, some, bit_and, ◌==◌, ==_iff, true, ◌%◌,
}
use easyfibers.Prelude.Bits.{bit_and_top2, bit_and_low14}
use native.Mathlib.Nat.{mul-le-mul_right, suc-mul}
use easyfibers.Prelude.Outcome.{ok}
use easyfibers.Prelude.Slice.{slice, index, drop-drop}
use easyfibers.DnsParser.Error.{Error}
use easyfibers.DnsParser.ByteOrder.{BigEndian, read_u16_at}

module _ (xs : List ℕ) (pos : ℕ) {byte : ℕ} {tail : List ℕ}
    (at_pos : drop pos xs ≡ byte ∷ tail) where
  pub length-at : length xs ≡ pos + suc (length tail)
  length-at =
      let e : length (drop pos xs) ≡ suc (length tail) = ap length at_pos in
      omega (arith, length-drop pos xs)

  pub index-at : index {E = Error} xs pos ≡ ok byte
  unfolding index
  index-at =
      let e : pos + 0 ≡ pos = omega arith in
      let g : get_elem? xs pos ≡ some byte =
        ap (get_elem? xs) (sym e)
        ∙ sym (get_elem?-drop pos 0 xs)
        ∙ ap (λ d. get_elem? d 0) at_pos in
      rw g

  drop-next : drop (pos + 1) xs ≡ tail
  drop-next = sym (drop-drop 1 pos xs) ∙ ap (drop 1) at_pos

  pub drop-label : (b : ℕ) → drop (pos + b + 1) xs ≡ drop b tail
  drop-label b =
      let e : pos + b + 1 ≡ pos + 1 + b = omega arith in
      ap (λ k. drop k xs) e ∙ sym (drop-drop b (pos + 1) xs) ∙ ap (drop b) drop-next

  pub slice-label :
      (b : ℕ) → b ≤ length tail → slice {E = Error} xs (pos + 1) (pos + b + 1) ≡ ok (take b tail)
  unfolding slice
  slice-label b h =
      let n = length-at in
      let e : pos + b + 1 - (pos + 1) ≡ b = omega arith in
      rw
        (
          le→leb (pos + 1) (pos + b + 1) (omega arith),
          le→leb (pos + b + 1) (length xs) (omega arith),
          e,
          drop-next,
        )
        refl

pub read_u16_at-at :
    ⦃be : BigEndian⦄ (xs : List ℕ) (pos : ℕ) {a b : ℕ} {rest : List ℕ}
    → drop pos xs ≡ a ∷ b ∷ rest
    → read_u16_at {E = Error} xs pos (pos + 2) ≡ ok (a * 256 + b)
unfolding read_u16_at slice
read_u16_at-at ⦃be⦄ xs pos {a} {b} {rest} at_pos =
    let n = length-at xs pos at_pos in
    let e : pos + 2 - pos ≡ 2 = omega arith in
    rw
      (
        le→leb pos (pos + 2) (omega arith),
        le→leb (pos + 2) (length xs) (omega arith),
        e,
        at_pos,
        be.read_u16_lem a b [],
      )
      refl

-- The two top bits of a byte, and the offset of a pointer.
pub pointer→le : (b : ℕ) → b < 256 → (bit_and b 192 == 192) ≡ true → 192 ≤ b
pointer→le b h e = omega (arith, bit_and_top2 b h, (==_iff (bit_and b 192) 192).0 e)

pub le→pointer : (b : ℕ) → b < 256 → 192 ≤ b → (bit_and b 192 == 192) ≡ true
le→pointer b h e = (==_iff _ _).1 (omega (arith, bit_and_top2 b h))

pub label→lt : (b : ℕ) → b < 256 → (bit_and b 192 == 0) ≡ true → b < 64
label→lt b h e = omega (arith, bit_and_top2 b h, (==_iff (bit_and b 192) 0).0 e)

pub lt→label : (b : ℕ) → b < 64 → bit_and b 192 ≡ 0
lt→label b h = omega (arith, bit_and_top2 b (omega arith))

pub offset : (a b : ℕ) → a < 256 → b < 256 → bit_and (a * 256 + b) 0x3fff ≡ a % 64 * 256 + b
offset a b h k = omega (arith, bit_and_low14 (a * 256 + b) (omega arith))

-- What is left to do falls at a pointer.
pub pointer_shrinks :
    (off limit l t fuel : ℕ)
    → off < limit
    → off < l
    → limit * suc l + t < suc fuel
    → off * suc l + (l - off) < fuel
pointer_shrinks off limit l t fuel h k m =
    let e : suc off * suc l ≤ limit * suc l = mul-le-mul_right (suc l) h in
    omega (arith, e, suc-mul off (suc l))

pub nonempty : (xs : List ℕ) → 0 < length xs → (x : ℕ) × (r : List ℕ) × (xs ≡ x ∷ r)
nonempty [] h = absurd (omega arith)
nonempty (x ∷ r) h = (x, r, refl)
