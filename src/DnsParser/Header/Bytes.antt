-- ===== src/DnsParser/Header/Bytes.antt =====
-- src/dns_parser/header.rs: the bytes of a header in plain arithmetic, and `write` makes them.
use easyfibers.Prelude.{
  ℕ, suc, ◌+◌, ◌*◌, ◌/◌, ◌%◌, ◌<◌, ◌≡◌, refl, Bool, true, false, not, List, [], ◌∷◌, ◌++◌, arith,
  length, if◌then◌else◌, bit_or,
}
use easyfibers.Prelude.Bits.{
  bit_or_bit15, bit_or_bit10, bit_or_bit9, bit_or_bit8, bit_or_bit7, bit_or_codes,
}
use easyfibers.Prelude.Outcome.{ok}
use easyfibers.DnsParser.ByteOrder.{BigEndian, write_u16_at-append}
use easyfibers.DnsParser.Enums.Codes.{IsOpcode, IsResponseCode, opcode-lt, response_code-lt}
use easyfibers.DnsParser.Enums.Opcode
use easyfibers.DnsParser.Enums.ResponseCode
use easyfibers.DnsParser.Header.{Header, write_flags, write}

-- What the fields of a header can be: 16-bit numbers, and codes that the reader makes.
pub record IsHeader (h : Header) : Type 0 where
  pub id : h.id < 65536
  pub opcode : IsOpcode h.opcode
  pub response_code : IsResponseCode h.response_code
  pub questions : h.questions < 65536
  pub answers : h.answers < 65536
  pub nameservers : h.nameservers < 65536
  pub additional : h.additional < 65536

abbrev pub bit : Bool → ℕ
bit true = 1
bit false = 0

-- The flags as a sum.
unfoldable pub flag_word : Header → ℕ
flag_word h =
    bit (not h.query) * 32768
    + Opcode.to_u16 h.opcode * 2048
    + bit h.authoritative * 1024
    + bit h.truncated * 512
    + bit h.recursion_desired * 256
    + bit h.recursion_available * 128
    + ResponseCode.to_u8 h.response_code

unfoldable pub header_bytes : Header → List ℕ
header_bytes h =
    h.id / 256
    ∷ h.id % 256
    ∷ flag_word h / 256
    ∷ flag_word h % 256
    ∷ h.questions / 256
    ∷ h.questions % 256
    ∷ h.answers / 256
    ∷ h.answers % 256
    ∷ h.nameservers / 256
    ∷ h.nameservers % 256
    ∷ h.additional / 256
    ∷ h.additional % 256
    ∷ []

or_bit15 :
    (b : Bool) (f : ℕ)
    → f < 65536
    → f / 32768 % 2 ≡ 0
    → (if b then bit_or f 0x8000 else f) ≡ f + bit b * 32768
or_bit15 true f h clear = omega (arith, bit_or_bit15 f h clear)
or_bit15 false f h clear = omega arith

or_bit10 :
    (b : Bool) (f : ℕ)
    → f < 65536
    → f / 1024 % 2 ≡ 0
    → (if b then bit_or f 0x400 else f) ≡ f + bit b * 1024
or_bit10 true f h clear = omega (arith, bit_or_bit10 f h clear)
or_bit10 false f h clear = omega arith

or_bit8 :
    (b : Bool) (f : ℕ)
    → f < 65536
    → f / 256 % 2 ≡ 0
    → (if b then bit_or f 0x100 else f) ≡ f + bit b * 256
or_bit8 true f h clear = omega (arith, bit_or_bit8 f h clear)
or_bit8 false f h clear = omega arith

or_bit7 :
    (b : Bool) (f : ℕ)
    → f < 65536
    → f / 128 % 2 ≡ 0
    → (if b then bit_or f 0x80 else f) ≡ f + bit b * 128
or_bit7 true f h clear = omega (arith, bit_or_bit7 f h clear)
or_bit7 false f h clear = omega arith

or_bit9 :
    (b : Bool) (f : ℕ)
    → f < 65536
    → f / 512 % 2 ≡ 0
    → (if b then bit_or f 0x200 else f) ≡ f + bit b * 512
or_bit9 true f h clear = omega (arith, bit_or_bit9 f h clear)
or_bit9 false f h clear = omega arith

pub bit-lt : (b : Bool) → bit b < 2
bit-lt true = omega arith
bit-lt false = omega arith

two_of :
    (xs : List ℕ) (n : ℕ)
    → length xs ≡ suc (suc n)
    → (a : ℕ) × (b : ℕ) × (r : List ℕ) × (xs ≡ a ∷ b ∷ r) × (length r ≡ n)
two_of [] n e = absurd (omega arith)
two_of (a ∷ []) n e = absurd (omega arith)
two_of (a ∷ b ∷ r) n e = (a, b, r, refl, omega arith)

nil_of : (xs : List ℕ) → length xs ≡ 0 → xs ≡ []
nil_of [] e = refl
nil_of (x ∷ xs) e = absurd (omega arith)

module _ (h : Header) (v : IsHeader h) where
  abbrev o : ℕ
  o = Opcode.to_u16 h.opcode

  abbrev r : ℕ
  r = ResponseCode.to_u8 h.response_code

  write_flags-flag_word : write_flags h ≡ flag_word h
  unfolding write_flags flag_word
  write_flags-flag_word =
      let ho = opcode-lt h.opcode v.opcode in
      let hr = response_code-lt h.response_code v.response_code in
      let q : ℕ = bit (not h.query) in
      let a : ℕ = bit h.authoritative in
      let d : ℕ = bit h.recursion_desired in
      let w : ℕ = bit h.recursion_available in
      let lq = bit-lt (not h.query) in
      let la = bit-lt h.authoritative in
      let ld = bit-lt h.recursion_desired in
      let lw = bit-lt h.recursion_available in
      let c = o * 2048 + r in
      rw
        (
          bit_or_codes o r ho hr,
          or_bit15 (not h.query) c (omega arith) (omega arith),
          or_bit10 h.authoritative (c + q * 32768) (omega arith) (omega arith),
          or_bit8 h.recursion_desired (c + q * 32768 + a * 1024) (omega arith) (omega arith),
          or_bit7 h.recursion_available (c + q * 32768 + a * 1024 + d * 256) (omega arith)
              (omega arith),
          or_bit9 h.truncated (c + q * 32768 + a * 1024 + d * 256 + w * 128) (omega arith)
              (omega arith),
        )
        (omega arith)

  pub flag_word-lt : flag_word h < 65536
  unfolding flag_word
  flag_word-lt = omega (
    arith,
    opcode-lt h.opcode v.opcode,
    response_code-lt h.response_code v.response_code,
    bit-lt (not h.query),
    bit-lt h.authoritative,
    bit-lt h.truncated,
    bit-lt h.recursion_desired,
    bit-lt h.recursion_available,
  )

  module _ ⦃be : BigEndian⦄ {E : Type 0} where
    write_twelve :
        (a b c d e f g i j k l m : ℕ)
        → write {E = E} h (a ∷ b ∷ c ∷ d ∷ e ∷ f ∷ g ∷ i ∷ j ∷ k ∷ l ∷ m ∷ []) ≡ ok (header_bytes h)
    unfolding write header_bytes
    write_twelve a b c d e f g i j k l m =
        let w = flag_word h in
        let p1 = h.id / 256 ∷ h.id % 256 ∷ [] in
        let p2 = p1 ++ (w / 256 ∷ w % 256 ∷ []) in
        let p3 = p2 ++ (h.questions / 256 ∷ h.questions % 256 ∷ []) in
        let p4 = p3 ++ (h.answers / 256 ∷ h.answers % 256 ∷ []) in
        let p5 = p4 ++ (h.nameservers / 256 ∷ h.nameservers % 256 ∷ []) in
        rw
          (
            write_flags-flag_word,
            write_u16_at-append [] (c ∷ d ∷ e ∷ f ∷ g ∷ i ∷ j ∷ k ∷ l ∷ m ∷ []) a b 0 2 h.id refl
                refl v.id,
            write_u16_at-append p1 (e ∷ f ∷ g ∷ i ∷ j ∷ k ∷ l ∷ m ∷ []) c d 2 4 w refl refl
                flag_word-lt,
            write_u16_at-append p2 (g ∷ i ∷ j ∷ k ∷ l ∷ m ∷ []) e f 4 6 h.questions refl refl
                v.questions,
            write_u16_at-append p3 (j ∷ k ∷ l ∷ m ∷ []) g i 6 8 h.answers refl refl v.answers,
            write_u16_at-append p4 (l ∷ m ∷ []) j k 8 10 h.nameservers refl refl v.nameservers,
            write_u16_at-append p5 [] l m 10 12 h.additional refl refl v.additional,
          )
          refl

    -- Any buffer of twelve bytes is overwritten by the bytes of the header.
    pub write-header_bytes :
        (buf : List ℕ) → length buf ≡ 12 → write {E = E} h buf ≡ ok (header_bytes h)
    write-header_bytes buf e =
        let (a, b, r1, e1, l1) = two_of buf 10 e in
        let (c, d, r2, e2, l2) = two_of r1 8 l1 in
        let (f, g, r3, e3, l3) = two_of r2 6 l2 in
        let (i, j, r4, e4, l4) = two_of r3 4 l3 in
        let (k, l, r5, e5, l5) = two_of r4 2 l4 in
        let (m, n, r6, e6, l6) = two_of r5 0 l5 in
        rw (e1, e2, e3, e4, e5, e6, nil_of r6 l6) (write_twelve a b c d f g i j k l m n)
