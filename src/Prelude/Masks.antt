-- ===== src/Prelude/Masks.antt =====
-- `|` with a field further up, and `&` with a mask of low bits, as arithmetic at every width.
use Prim.Native.Nat.{
  ℕ, zero, suc, ◌+◌, ◌-◌, ◌*◌, ◌/◌, ◌^◌, ◌≤◌, ◌<◌, min, max, digits, bit_and, bit_or,
  bit_and-bitwise, bit_or-bitwise,
}
use mathlib.Core.Path.{◌≡◌, refl, ap}
use native.Mathlib.Nat.{pow-suc, one-le-pow, le_refl}
use native.Mathlib.Omega.{arith}

field_up : (k q : ℕ) → q * 2 ^ suc k ≡ 2 * (q * 2 ^ k)
field_up k q = omega (arith, ap (λ (p : ℕ). q * p) (pow-suc 2 k))

digits_or : (k n a q : ℕ) → a ≤ n → a < 2 ^ k → digits (λ y. y) max n a (q * 2 ^ k) ≡ a + q * 2 ^ k
digits_or zero zero a q h l = omega arith
digits_or zero (suc n) zero q h l = omega arith
digits_or zero (suc n) (suc a) q h l = absurd (omega arith)
digits_or (suc k) zero a q h l = omega arith
digits_or (suc k) (suc n) zero q h l = omega arith
digits_or (suc k) (suc n) (suc a) q h l =
    let p = pow-suc 2 k in
    let e = field_up k q in
    let half : q * 2 ^ suc k / 2 ≡ q * 2 ^ k = omega arith in
    let ih = digits_or k n (suc a / 2) q (omega arith) (omega arith) in rw (half, ih) (ground arith)

-- A field of `k` bits with another above it.
pub bit_or_above : (k a q : ℕ) → a < 2 ^ k → bit_or a (q * 2 ^ k) ≡ a + q * 2 ^ k
bit_or_above k a q h = simp bit_or-bitwise (digits_or k a a q (le_refl a) h)

digits_and_zero : (n a : ℕ) → digits (λ y. 0) min n a 0 ≡ 0
digits_and_zero zero a = refl
digits_and_zero (suc n) zero = refl
digits_and_zero (suc n) (suc a) = rw (digits_and_zero n (suc a / 2)) (ground arith)

digits_and :
    (k n a q r : ℕ)
    → a ≤ n
    → a ≡ q * 2 ^ k + r
    → r < 2 ^ k
    → digits (λ y. 0) min n a (2 ^ k - 1) ≡ r
digits_and zero n a q r h e l = omega (arith, digits_and_zero n a)
digits_and (suc k) zero a q r h e l = omega arith
digits_and (suc k) (suc n) zero q r h e l = omega arith
digits_and (suc k) (suc n) (suc a) q r h e l =
    let p = pow-suc 2 k in
    let o = one-le-pow k 2 in
    let f = field_up k q in
    let half : (2 ^ suc k - 1) / 2 ≡ 2 ^ k - 1 = omega arith in
    let ih = digits_and k n (suc a / 2) q (r / 2) (omega arith) (omega arith) (omega arith) in
    rw (half, ih) (ground arith)

-- The mask of `k` low bits keeps the field below them.
pub bit_and_low : (k a q r : ℕ) → a ≡ q * 2 ^ k + r → r < 2 ^ k → bit_and a (2 ^ k - 1) ≡ r
bit_and_low k a q r e l = simp bit_and-bitwise (digits_and k a a q r (le_refl a) e l)

digits_and-le : (n a b : ℕ) → digits (λ y. 0) min n a b ≤ b
digits_and-le zero a b = omega arith
digits_and-le (suc n) zero b = omega arith
digits_and-le (suc n) (suc a) b = let ih = digits_and-le n (suc a / 2) (b / 2) in ground arith

-- A mask bounds what is left.
pub bit_and-le : (a b : ℕ) → bit_and a b ≤ b
bit_and-le a b = simp bit_and-bitwise (digits_and-le a a b)
