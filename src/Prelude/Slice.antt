-- ===== src/Prelude/Slice.antt =====
-- Slices of Rust: indexing out of range panics.
use easyfibers.Prelude.Lists.{
  length, get_elem?, set, take, drop, length-take, length-append, length-drop, get_elem?_in,
}
use easyfibers.Prelude.Tests.{leb, ltb, le→leb, if◌then◌else◌}
use easyfibers.Prelude.Outcome.{Outcome, ok, panic, Ensures, value}
use Prim.Native.Nat.{ℕ, zero, suc, ◌+◌, ◌-◌, ◌≤◌, ◌<◌}
use mathlib.Core.Path.{◌≡◌, refl}
use mathlib.Core.Bool.{◌&&◌}
use mathlib.Core.List.{List, [], ◌∷◌, ◌++◌, append_assoc}
use mathlib.Core.Option.{Option, none, some}
use native.Mathlib.Omega.{arith}

module _ {A : Type 0} where
  -- What the buffer holds once a slice `[i..j]` of it was replaced by `s`.
  unfoldable pub splice : List A → ℕ → ℕ → List A → List A
  splice xs i j s = take i xs ++ s ++ drop j xs

module _ {E A : Type 0} where
  -- A call that documents a panic answers `none` there.
  abbrev pub or_panic : Option A → Outcome E A
  or_panic none = panic
  or_panic (some a) = ok a

  -- `xs[i]`
  unfoldable pub index : List A → ℕ → Outcome E A
  index xs i = or_panic (get_elem? xs i)

  -- `xs[i] = v`
  unfoldable pub assign : List A → ℕ → A → Outcome E (List A)
  assign xs i v = if ltb i (length xs) then ok (set xs i v) else panic

  -- `&xs[i..j]`
  unfoldable pub slice : List A → ℕ → ℕ → Outcome E (List A)
  slice xs i j = if leb i j && leb j (length xs) then ok (take (j - i) (drop i xs)) else panic

  -- `&xs[i..]`
  unfoldable pub slice_from : List A → ℕ → Outcome E (List A)
  slice_from xs i = if leb i (length xs) then ok (drop i xs) else panic

  pub index-Ensures :
      (xs : List A) (i : ℕ) → i < length xs → Ensures (λ x. get_elem? xs i ≡ some x) (index xs i)
  unfolding index
  index-Ensures xs i h = let (x, e) = get_elem?_in xs i h in rw e (value refl)

  pub slice-Ensures :
      (xs : List A) (i j : ℕ)
      → i ≤ j
      → j ≤ length xs
      → Ensures (λ s. (s ≡ take (j - i) (drop i xs)) × (length s ≡ j - i)) (slice xs i j)
  unfolding slice
  slice-Ensures xs i j h k =
      rw (le→leb i j h, le→leb j (length xs) k)
        (value (refl, omega (arith, length-take (j - i) (drop i xs), length-drop i xs)))

  pub slice_from-Ensures :
      (xs : List A) (i : ℕ)
      → i ≤ length xs
      → Ensures (λ s. (s ≡ drop i xs) × (length s ≡ length xs - i)) (slice_from xs i)
  unfolding slice_from
  slice_from-Ensures xs i h =
      rw (le→leb i (length xs) h) (value (refl, omega (arith, length-drop i xs)))

module _ {A : Type 0} where
  take-append : (pre post : List A) → take (length pre) (pre ++ post) ≡ pre
  take-append [] post = refl
  take-append (x ∷ pre) post = rw (take-append pre post)

  drop-append : (pre post : List A) → drop (length pre) (pre ++ post) ≡ post
  drop-append [] post = refl
  drop-append (x ∷ pre) post = drop-append pre post

  pub take-append_len : (pre post : List A) (n : ℕ) → n ≡ length pre → take n (pre ++ post) ≡ pre
  take-append_len pre post n e = rw e (take-append pre post)

  pub drop-append_len : (pre post : List A) (n : ℕ) → n ≡ length pre → drop n (pre ++ post) ≡ post
  drop-append_len pre post n e = rw e (drop-append pre post)

  drop-nil : (n : ℕ) → drop {A = A} n [] ≡ []
  drop-nil zero = refl
  drop-nil (suc n) = refl

  pub drop-drop : (m n : ℕ) (xs : List A) → drop m (drop n xs) ≡ drop (n + m) xs
  drop-drop m zero xs = let e : zero + m ≡ m = omega arith in rw e
  drop-drop m (suc n) [] = rw (drop-nil m, drop-nil (suc n + m))
  drop-drop m (suc n) (x ∷ xs) =
      let e : suc n + m ≡ suc (n + m) = omega arith in rw e (drop-drop m n xs)

  length-append_le : (pre post : List A) → length pre ≤ length (pre ++ post)
  length-append_le pre post = omega (arith, length-append pre post)

  pub splice-append :
      (pre s t post : List A) (i j : ℕ)
      → i ≡ length pre
      → j ≡ length pre + length s
      → splice (pre ++ (s ++ post)) i j t ≡ pre ++ (t ++ post)
  unfolding splice
  splice-append pre s t post i j ei ej =
      rw
        (
          take-append_len pre (s ++ post) i ei,
          ← append_assoc pre s post,
          drop-append_len (pre ++ s) post j (omega (arith, length-append pre s)),
        )
        (append_assoc pre t post)

module _ {A : Type 0} {E : Type 0} where
  -- A slice of a buffer that is given in three parts.
  pub slice-append :
      (pre s post : List A) (i j : ℕ)
      → i ≡ length pre
      → j ≡ length pre + length s
      → slice {E = E} (pre ++ (s ++ post)) i j ≡ ok s
  unfolding slice
  slice-append pre s post i j ei ej =
      rw
        (
          le→leb i j (omega arith),
          le→leb j (length (pre ++ (s ++ post)))
              (omega (arith, length-append pre (s ++ post), length-append s post)),
          drop-append_len pre (s ++ post) i ei,
          take-append_len s post (j - i) (omega arith),
        )
        refl

  pub slice_from-append :
      (pre post : List A) (i : ℕ) → i ≡ length pre → slice_from {E = E} (pre ++ post) i ≡ ok post
  unfolding slice_from
  slice_from-append pre post i e =
      rw
        (
          le→leb i (length (pre ++ post)) (omega (arith, length-append pre post)),
          drop-append_len pre post i e,
        )
        refl

  pub le→slice_from :
      (xs : List A) (i : ℕ) → i ≤ length xs → slice_from {E = E} xs i ≡ ok (drop i xs)
  unfolding slice_from
  le→slice_from xs i h = rw (le→leb i (length xs) h)

  pub le→slice :
      (xs : List A) (i j : ℕ)
      → i ≤ j
      → j ≤ length xs
      → slice {E = E} xs i j ≡ ok (take (j - i) (drop i xs))
  unfolding slice
  le→slice xs i j h k = rw (le→leb i j h, le→leb j (length xs) k)
