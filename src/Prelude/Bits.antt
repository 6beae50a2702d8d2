-- ===== src/Prelude/Bits.antt =====
-- Facts about `bit_and` and `bit_or` at 16-bit variables: a table has every value checked once.
use Prim.Native.Nat.{ℕ, zero, suc, ◌+◌, ◌*◌, ◌/◌, ◌%◌, ◌^◌, ◌<◌, bit_and, bit_or}
use mathlib.Core.Path.{◌≡◌, refl}
use mathlib.Core.Bool.{Bool, true}
use native.Mathlib.Omega.{arith}
use easyfibers.Prelude.Tests.{◌==◌, ==_iff, if◌then◌else◌}

-- How many of the values below a bound fail a test.
misses : (ℕ → Bool) → ℕ → ℕ
misses test zero = 0
misses test (suc bound) = misses test bound + (if test bound then 0 else 1)

no_miss :
    (bound : ℕ) (test : ℕ → Bool) (value : ℕ)
    → misses test bound ≡ 0
    → value < bound
    → test value ≡ true
unfolding misses
no_miss zero test value none_fails small = absurd (omega arith)
no_miss (suc bound) test value none_fails small =
    ground (arith, no_miss bound test value (omega arith))

bit_and_bit15_table : misses (λ x. bit_and x 0x8000 == x / 32768 % 2 * 32768) 65536 ≡ 0
unfolding misses
bit_and_bit15_table = refl

pub bit_and_bit15 : (x : ℕ) → x < 65536 → bit_and x 0x8000 ≡ x / 32768 % 2 * 32768
bit_and_bit15 x h = (==_iff _ _).0 (no_miss 65536 _ x bit_and_bit15_table h)

bit_and_bit10_table : misses (λ x. bit_and x 0x400 == x / 1024 % 2 * 1024) 65536 ≡ 0
unfolding misses
bit_and_bit10_table = refl

pub bit_and_bit10 : (x : ℕ) → x < 65536 → bit_and x 0x400 ≡ x / 1024 % 2 * 1024
bit_and_bit10 x h = (==_iff _ _).0 (no_miss 65536 _ x bit_and_bit10_table h)

bit_and_bit9_table : misses (λ x. bit_and x 0x200 == x / 512 % 2 * 512) 65536 ≡ 0
unfolding misses
bit_and_bit9_table = refl

pub bit_and_bit9 : (x : ℕ) → x < 65536 → bit_and x 0x200 ≡ x / 512 % 2 * 512
bit_and_bit9 x h = (==_iff _ _).0 (no_miss 65536 _ x bit_and_bit9_table h)

bit_and_bit8_table : misses (λ x. bit_and x 0x100 == x / 256 % 2 * 256) 65536 ≡ 0
unfolding misses
bit_and_bit8_table = refl

pub bit_and_bit8 : (x : ℕ) → x < 65536 → bit_and x 0x100 ≡ x / 256 % 2 * 256
bit_and_bit8 x h = (==_iff _ _).0 (no_miss 65536 _ x bit_and_bit8_table h)

bit_and_bit7_table : misses (λ x. bit_and x 0x80 == x / 128 % 2 * 128) 65536 ≡ 0
unfolding misses
bit_and_bit7_table = refl

pub bit_and_bit7 : (x : ℕ) → x < 65536 → bit_and x 0x80 ≡ x / 128 % 2 * 128
bit_and_bit7 x h = (==_iff _ _).0 (no_miss 65536 _ x bit_and_bit7_table h)

bit_and_bit6_table : misses (λ x. bit_and x 0x40 == x / 64 % 2 * 64) 65536 ≡ 0
unfolding misses
bit_and_bit6_table = refl

pub bit_and_bit6 : (x : ℕ) → x < 65536 → bit_and x 0x40 ≡ x / 64 % 2 * 64
bit_and_bit6 x h = (==_iff _ _).0 (no_miss 65536 _ x bit_and_bit6_table h)

bit_and_bit5_table : misses (λ x. bit_and x 0x20 == x / 32 % 2 * 32) 65536 ≡ 0
unfolding misses
bit_and_bit5_table = refl

pub bit_and_bit5 : (x : ℕ) → x < 65536 → bit_and x 0x20 ≡ x / 32 % 2 * 32
bit_and_bit5 x h = (==_iff _ _).0 (no_miss 65536 _ x bit_and_bit5_table h)

bit_and_bit4_table : misses (λ x. bit_and x 0x10 == x / 16 % 2 * 16) 65536 ≡ 0
unfolding misses
bit_and_bit4_table = refl

pub bit_and_bit4 : (x : ℕ) → x < 65536 → bit_and x 0x10 ≡ x / 16 % 2 * 16
bit_and_bit4 x h = (==_iff _ _).0 (no_miss 65536 _ x bit_and_bit4_table h)

bit_and_opcode_table : misses (λ x. bit_and x 0x7800 == x / 2048 % 16 * 2048) 65536 ≡ 0
unfolding misses
bit_and_opcode_table = refl

pub bit_and_opcode : (x : ℕ) → x < 65536 → bit_and x 0x7800 ≡ x / 2048 % 16 * 2048
bit_and_opcode x h = (==_iff _ _).0 (no_miss 65536 _ x bit_and_opcode_table h)

bit_and_low4_table : misses (λ x. bit_and x 0xf == x % 16) 65536 ≡ 0
unfolding misses
bit_and_low4_table = refl

pub bit_and_low4 : (x : ℕ) → x < 65536 → bit_and x 0xf ≡ x % 16
bit_and_low4 x h = (==_iff _ _).0 (no_miss 65536 _ x bit_and_low4_table h)

bit_and_low14_table : misses (λ x. bit_and x 0x3fff == x % 16384) 65536 ≡ 0
unfolding misses
bit_and_low14_table = refl

pub bit_and_low14 : (x : ℕ) → x < 65536 → bit_and x 0x3fff ≡ x % 16384
bit_and_low14 x h = (==_iff _ _).0 (no_miss 65536 _ x bit_and_low14_table h)

bit_and_low15_table : misses (λ x. bit_and x 0x7fff == x % 32768) 65536 ≡ 0
unfolding misses
bit_and_low15_table = refl

pub bit_and_low15 : (x : ℕ) → x < 65536 → bit_and x 0x7fff ≡ x % 32768
bit_and_low15 x h = (==_iff _ _).0 (no_miss 65536 _ x bit_and_low15_table h)

bit_and_top2_table : misses (λ x. bit_and x 0xc0 == x / 64 * 64) 256 ≡ 0
unfolding misses
bit_and_top2_table = refl

pub bit_and_top2 : (x : ℕ) → x < 256 → bit_and x 0xc0 ≡ x / 64 * 64
bit_and_top2 x h = (==_iff _ _).0 (no_miss 256 _ x bit_and_top2_table h)

bit_or_bit15_table :
    misses (λ x. if x / 32768 % 2 == 0 then bit_or x 0x8000 == x + 32768 else true) 65536 ≡ 0
unfolding misses
bit_or_bit15_table = refl

pub bit_or_bit15 : (x : ℕ) → x < 65536 → x / 32768 % 2 ≡ 0 → bit_or x 0x8000 ≡ x + 32768
bit_or_bit15 x h clear =
    (==_iff _ _).0
      (rw ((==_iff (x / 32768 % 2) 0).1 clear) at (no_miss 65536 _ x bit_or_bit15_table h))

bit_or_bit10_table :
    misses (λ x. if x / 1024 % 2 == 0 then bit_or x 0x400 == x + 1024 else true) 65536 ≡ 0
unfolding misses
bit_or_bit10_table = refl

pub bit_or_bit10 : (x : ℕ) → x < 65536 → x / 1024 % 2 ≡ 0 → bit_or x 0x400 ≡ x + 1024
bit_or_bit10 x h clear =
    (==_iff _ _).0
      (rw ((==_iff (x / 1024 % 2) 0).1 clear) at (no_miss 65536 _ x bit_or_bit10_table h))

bit_or_bit9_table :
    misses (λ x. if x / 512 % 2 == 0 then bit_or x 0x200 == x + 512 else true) 65536 ≡ 0
unfolding misses
bit_or_bit9_table = refl

pub bit_or_bit9 : (x : ℕ) → x < 65536 → x / 512 % 2 ≡ 0 → bit_or x 0x200 ≡ x + 512
bit_or_bit9 x h clear =
    (==_iff _ _).0
      (rw ((==_iff (x / 512 % 2) 0).1 clear) at (no_miss 65536 _ x bit_or_bit9_table h))

bit_or_bit8_table :
    misses (λ x. if x / 256 % 2 == 0 then bit_or x 0x100 == x + 256 else true) 65536 ≡ 0
unfolding misses
bit_or_bit8_table = refl

pub bit_or_bit8 : (x : ℕ) → x < 65536 → x / 256 % 2 ≡ 0 → bit_or x 0x100 ≡ x + 256
bit_or_bit8 x h clear =
    (==_iff _ _).0
      (rw ((==_iff (x / 256 % 2) 0).1 clear) at (no_miss 65536 _ x bit_or_bit8_table h))

bit_or_bit7_table :
    misses (λ x. if x / 128 % 2 == 0 then bit_or x 0x80 == x + 128 else true) 65536 ≡ 0
unfolding misses
bit_or_bit7_table = refl

pub bit_or_bit7 : (x : ℕ) → x < 65536 → x / 128 % 2 ≡ 0 → bit_or x 0x80 ≡ x + 128
bit_or_bit7 x h clear =
    (==_iff _ _).0
      (rw ((==_iff (x / 128 % 2) 0).1 clear) at (no_miss 65536 _ x bit_or_bit7_table h))

bit_or_codes_table :
    misses
      (λ x. bit_or (bit_or 0 (x / 16 * 2 ^ 11 % 2 ^ 16)) (x % 16) == x / 16 * 2048 + x % 16)
      256
    ≡ 0
unfolding misses
bit_or_codes_table = refl

-- A number of four bits at bit 11 and one at bit 0 take disjoint bits.
pub bit_or_codes :
    (o r : ℕ) → o < 16 → r < 16 → bit_or (bit_or 0 (o * 2 ^ 11 % 2 ^ 16)) r ≡ o * 2048 + r
bit_or_codes o r ho hr =
    let q : (o * 16 + r) / 16 ≡ o = omega arith in
    let m : (o * 16 + r) % 16 ≡ r = omega arith in
    rw (q, m) at ((==_iff _ _).0 (no_miss 256 _ (o * 16 + r) bit_or_codes_table (omega arith)))
