-- ===== src/Tests/Network.antt =====
-- The calls of byteorder by clauses, and packets of the source's own tests.
use easyfibers.Prelude.{
  ℕ, ◌+◌, ◌*◌, ◌/◌, ◌%◌, ◌≡◌, refl, Bool, true, false, ◌&&◌, List, [], ◌∷◌, ◌++◌, Option, none,
  some, arith, ltb, All, IsByte,
}
use easyfibers.DnsParser.ByteOrder.{BigEndian}

abbrev read_two : List ℕ → Option ℕ
read_two (a ∷ b ∷ r) = some (a * 256 + b)
read_two _ = none

abbrev read_four : List ℕ → Option ℕ
read_four (a ∷ b ∷ c ∷ d ∷ r) = some (((a * 256 + b) * 256 + c) * 256 + d)
read_four _ = none

abbrev write_two : List ℕ → ℕ → Option (List ℕ)
write_two (a ∷ b ∷ r) n = some (n / 256 ∷ n % 256 ∷ r)
write_two _ n = none

instance abbrev pub big_endian : BigEndian
big_endian = record {
  read_u16 = read_two;
  read_u32 = read_four;
  write_u16 = write_two;
  read_u16_lem = λ a b r. refl;
  read_u32_lem = λ a b c d r. refl;
  write_u16_lem = λ a b n r h. refl;
}

abbrev pub all_below : List ℕ → Bool
all_below [] = true
all_below (x ∷ xs) = ltb x 256 && all_below xs

and_split : (a b : Bool) → (a && b) ≡ true → (a ≡ true) × (b ≡ true)
and_split true b h = (refl, h)
and_split false b h = cc

pub all_below_lem : (xs : List ℕ) → all_below xs ≡ true → All IsByte xs
all_below_lem [] h = tt
all_below_lem (x ∷ xs) h =
    let (hx, hs) = and_split (ltb x 256) (all_below xs) h in (ground arith, all_below_lem xs hs)

abbrev pub example : List ℕ
example = b'e' ∷ b'x' ∷ b'a' ∷ b'm' ∷ b'p' ∷ b'l' ∷ b'e' ∷ []

abbrev pub com_label : List ℕ
com_label = b'c' ∷ b'o' ∷ b'm' ∷ []

abbrev pub example_com : List ℕ
example_com = example ++ (b'.' ∷ com_label)

abbrev pub wire_example_com : List ℕ
wire_example_com = (7 ∷ example) ++ ((3 ∷ com_label) ++ (0 ∷ []))

abbrev pub response_front : List ℕ
response_front = 0x06 ∷ 0x25 ∷ 0x81 ∷ 0x80 ∷ 0 ∷ 1 ∷ 0 ∷ 1 ∷ 0 ∷ 0 ∷ 0 ∷ 0 ∷ []

-- `parse_example_response`
abbrev pub response : List ℕ
response =
    response_front
    ++ (wire_example_com
        ++ (0 ∷ 1 ∷ 0 ∷ 1 ∷ 0xc0 ∷ 0x0c ∷ 0 ∷ 1 ∷ 0 ∷ 1 ∷ 0 ∷ 0 ∷ 0x04 ∷ 0xf8 ∷ 0 ∷ 4 ∷ 93 ∷ 184
            ∷ 216 ∷ 34 ∷ []))

-- `\x02xx\x00\x02yy\xc0\x00\x02zz\xc0\x04`, the packet of the test of names.
abbrev pub three_names : List ℕ
three_names = 2 ∷ b'x' ∷ b'x' ∷ 0 ∷ 2 ∷ b'y' ∷ b'y' ∷ 0xc0 ∷ 0 ∷ 2 ∷ b'z' ∷ b'z' ∷ 0xc0 ∷ 4 ∷ []

-- The last of the three names.
abbrev pub zz : List ℕ
zz = 2 ∷ b'z' ∷ b'z' ∷ 0xc0 ∷ 4 ∷ []
