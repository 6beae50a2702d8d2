-- ===== src/DnsParser/ByteOrder.antt =====
-- What dns_parser calls of the crate byteorder: `BigEndian`, as a parameter.
use easyfibers.Prelude.{
  ℕ, ◌+◌, ◌*◌, ◌/◌, ◌%◌, ◌≤◌, ◌<◌, ◌≡◌, refl, Option, some, List, [], ◌∷◌, ◌++◌, arith, length, All,
  All-take, All-drop, IsByte, drop, ◌-◌,
}
use easyfibers.Prelude.Outcome.{Outcome, ok, ◌>>=◌, Ensures, value, Ensures-bind}
use easyfibers.Prelude.Slice.{or_panic, slice, splice, slice-Ensures, slice-append, splice-append}

-- `none` is a panic: the documentation of each call names one, at a buffer that is too short. A
-- call uses the front of its buffer. The laws are the documented behaviour on buffers that are
-- long enough.
pub record BigEndian : Type 0 where
  pub read_u16 : List ℕ → Option ℕ
  pub read_u32 : List ℕ → Option ℕ
  pub write_u16 : List ℕ → ℕ → Option (List ℕ)
  pub read_u16_lem : (a b : ℕ) (r : List ℕ) → read_u16 (a ∷ b ∷ r) ≡ some (a * 256 + b)
  pub read_u32_lem :
      (a b c d : ℕ) (r : List ℕ)
      → read_u32 (a ∷ b ∷ c ∷ d ∷ r) ≡ some (((a * 256 + b) * 256 + c) * 256 + d)
  pub write_u16_lem :
      (a b n : ℕ) (r : List ℕ) → n < 65536 → write_u16 (a ∷ b ∷ r) n ≡ some (n / 256 ∷ n % 256 ∷ r)

module _ {E : Type 0} ⦃be : BigEndian⦄ where
  abbrev pub read_u16 : List ℕ → Outcome E ℕ
  read_u16 buf = or_panic (be.read_u16 buf)

  abbrev pub read_u32 : List ℕ → Outcome E ℕ
  read_u32 buf = or_panic (be.read_u32 buf)

  -- `BigEndian::read_u16(&buf[i..j])`
  unfoldable pub read_u16_at : List ℕ → ℕ → ℕ → Outcome E ℕ
  read_u16_at buf i j = do s ← slice buf i j; read_u16 s

  -- `BigEndian::read_u32(&buf[i..j])`
  unfoldable pub read_u32_at : List ℕ → ℕ → ℕ → Outcome E ℕ
  read_u32_at buf i j = do s ← slice buf i j; read_u32 s

  -- `BigEndian::write_u16(&mut buf[i..j], n)`
  unfoldable pub write_u16_at : List ℕ → ℕ → ℕ → ℕ → Outcome E (List ℕ)
  write_u16_at buf i j n = do
    s ← slice buf i j
    s' ← or_panic (be.write_u16 s n)
    ok (splice buf i j s')

  read_u16-Ensures : (buf : List ℕ) → 2 ≤ length buf → Ensures (λ n. n ≡ n) (read_u16 buf)
  read_u16-Ensures [] h = absurd (omega arith)
  read_u16-Ensures (a ∷ []) h = absurd (omega arith)
  read_u16-Ensures (a ∷ b ∷ r) h = rw (be.read_u16_lem a b r) (value refl)

  pub read_u32-Ensures : (buf : List ℕ) → 4 ≤ length buf → Ensures (λ n. n ≡ n) (read_u32 buf)
  read_u32-Ensures [] h = absurd (omega arith)
  read_u32-Ensures (a ∷ []) h = absurd (omega arith)
  read_u32-Ensures (a ∷ b ∷ []) h = absurd (omega arith)
  read_u32-Ensures (a ∷ b ∷ c ∷ []) h = absurd (omega arith)
  read_u32-Ensures (a ∷ b ∷ c ∷ d ∷ r) h = rw (be.read_u32_lem a b c d r) (value refl)

  read_u16-lt :
      (buf : List ℕ) → All IsByte buf → 2 ≤ length buf → Ensures (λ n. n < 65536) (read_u16 buf)
  read_u16-lt [] w h = absurd (omega arith)
  read_u16-lt (a ∷ []) w h = absurd (omega arith)
  read_u16-lt (a ∷ b ∷ r) w h = rw (be.read_u16_lem a b r) (value (omega arith))

  -- A read of bytes is a 16-bit number.
  pub read_u16_at-lt :
      (buf : List ℕ) (i j : ℕ)
      → All IsByte buf
      → i + 2 ≤ j
      → j ≤ length buf
      → Ensures (λ n. n < 65536) (read_u16_at buf i j)
  unfolding read_u16_at
  read_u16_at-lt buf i j w h k = Ensures-bind (slice-Ensures buf i j (omega arith) k) λ s (e, l).
      read_u16-lt s (rw e (All-take IsByte (j - i) (drop i buf) (All-drop IsByte i buf w)))
        (omega arith)

  -- A read inside the buffer returns.
  pub read_u16_at-Ensures :
      (buf : List ℕ) (i j : ℕ)
      → i + 2 ≤ j
      → j ≤ length buf
      → Ensures (λ n. n ≡ n) (read_u16_at buf i j)
  unfolding read_u16_at
  read_u16_at-Ensures buf i j h k =
      Ensures-bind (slice-Ensures buf i j (omega arith) k)
        λ s (_, l). read_u16-Ensures s (omega arith)

  pub read_u32_at-Ensures :
      (buf : List ℕ) (i j : ℕ)
      → i + 4 ≤ j
      → j ≤ length buf
      → Ensures (λ n. n ≡ n) (read_u32_at buf i j)
  unfolding read_u32_at
  read_u32_at-Ensures buf i j h k =
      Ensures-bind (slice-Ensures buf i j (omega arith) k)
        λ s (_, l). read_u32-Ensures s (omega arith)

  -- Reading and writing where the buffer is given in parts.
  pub read_u16_at-append :
      (pre post : List ℕ) (a b i j : ℕ)
      → i ≡ length pre
      → j ≡ i + 2
      → read_u16_at (pre ++ (a ∷ b ∷ post)) i j ≡ ok (a * 256 + b)
  unfolding read_u16_at
  read_u16_at-append pre post a b i j ei ej =
      rw (slice-append pre (a ∷ b ∷ []) post i j ei (omega arith), be.read_u16_lem a b []) refl

  pub write_u16_at-append :
      (pre post : List ℕ) (a b i j n : ℕ)
      → i ≡ length pre
      → j ≡ i + 2
      → n < 65536
      → write_u16_at (pre ++ (a ∷ b ∷ post)) i j n ≡ ok (pre ++ (n / 256 ∷ n % 256 ∷ post))
  unfolding write_u16_at
  write_u16_at-append pre post a b i j n ei ej h =
      rw
        (
          slice-append pre (a ∷ b ∷ []) post i j ei (omega arith),
          be.write_u16_lem a b n [] h,
          splice-append pre (a ∷ b ∷ []) (n / 256 ∷ n % 256 ∷ []) post i j ei (omega arith),
        )
        refl
