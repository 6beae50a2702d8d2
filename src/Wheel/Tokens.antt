-- ===== src/Wheel/Tokens.antt =====
-- Lists of tokens with no token twice.
use easyfibers.Prelude.{
  ℕ, ◌≡◌, ◌≢◌, refl, sym, ap, ◌∙◌, Bool, true, false, not, ◌||◌, ◌&&◌, List, [], ◌∷◌, ◌++◌, ◌==◌,
  ==_iff, arith, if◌then◌else◌, Bool-cases, inl, inr, length, ◌≤◌, ◌<◌,
}

abbrev pub has : ℕ → List ℕ → Bool
has a [] = false
has a (t ∷ ts) = a == t || has a ts

abbrev pub IsNodup : List ℕ → Type 0
IsNodup [] = Unit {0}
IsNodup (t ∷ ts) = (has t ts ≡ false) × IsNodup ts

-- The list with the first `t` taken out.
abbrev pub erase : ℕ → List ℕ → List ℕ
erase t [] = []
erase t (x ∷ xs) = if t == x then xs else x ∷ erase t xs

-- A token taken out of every list.
abbrev pub erased : (ℕ → List ℕ) → ℕ → ℕ → List ℕ
erased chain t i = erase t (chain i)

pub has-ne : (a y : ℕ) (ts : List ℕ) → has a ts ≡ true → has y ts ≡ false → a ≢ y
has-ne a y ts m out e = cc

pub has-append : (a : ℕ) (xs ys : List ℕ) → has a (xs ++ ys) ≡ (has a xs || has a ys)
has-append a [] ys = refl
has-append a (x ∷ xs) ys = ground (arith, has-append a xs ys)

pub has-split :
    (t : ℕ) (ts : List ℕ) → has t ts ≡ true → (xs : List ℕ) × (ys : List ℕ) × (ts ≡ xs ++ (t ∷ ys))
has-split t [] h = cc
has-split t (x ∷ xs) h = elim (Bool-cases (t == x)) [
  | inl same ↦ ([], xs, ap (λ a. a ∷ xs) (sym ((==_iff t x).0 same)))
  | inr other ↦
      let (front, back, e) = has-split t xs (rw other at h) in (x ∷ front, back, ap (λ l. x ∷ l) e)
]

-- The parts around a token of a list with no token twice.
pub record Parts (t : ℕ) (xs ys : List ℕ) : Type 0 where
  pub not_before : has t xs ≡ false
  pub not_after : has t ys ≡ false
  pub front : IsNodup xs
  pub back : IsNodup ys
  pub apart : (a : ℕ) → has a xs ≡ true → has a ys ≡ false
  pub whole : IsNodup (xs ++ ys)

pub IsNodup-Parts : (t : ℕ) (xs ys : List ℕ) → IsNodup (xs ++ (t ∷ ys)) → Parts t xs ys
IsNodup-Parts t [] ys (out, d) = record {
  not_before = refl;
  not_after = out;
  front = tt;
  back = d;
  apart = λ a h. cc;
  whole = d;
}
IsNodup-Parts t (x ∷ xs) ys (out, d) =
    let p = IsNodup-Parts t xs ys d in
    let e = has-append x xs (t ∷ ys) in
    let f = has-append x xs ys in
    record {
      not_before = ground (arith, p.not_before);
      not_after = p.not_after;
      front = (ground arith, p.front);
      back = p.back;
      apart = λ a h. ground (arith, p.apart a);
      whole = (ground arith, p.whole);
    }

pub erase-append : (t : ℕ) (xs ys : List ℕ) → has t xs ≡ false → erase t (xs ++ (t ∷ ys)) ≡ xs ++ ys
erase-append t [] ys h = ground arith
erase-append t (x ∷ xs) ys h = ground (arith, erase-append t xs ys)

pub has-erase :
    (a t : ℕ) (ts : List ℕ) → IsNodup ts → has a (erase t ts) ≡ (has a ts && not (a == t))
has-erase a t [] d = refl
has-erase a t (x ∷ xs) (out, d) = ground (arith, has-erase a t xs d)

pub has-erase_ne : (a t : ℕ) (ts : List ℕ) → a ≢ t → has a (erase t ts) ≡ has a ts
has-erase_ne a t [] h = refl
has-erase_ne a t (x ∷ xs) h = ground (arith, has-erase_ne a t xs h)

pub erase-absent : (t : ℕ) (ts : List ℕ) → has t ts ≡ false → erase t ts ≡ ts
erase-absent t [] h = refl
erase-absent t (x ∷ xs) h = ground (arith, erase-absent t xs)

-- Taking a token out of either part of a list.
pub erase-parts :
    (t : ℕ) (xs ys : List ℕ) → IsNodup (xs ++ ys) → erase t (xs ++ ys) ≡ erase t xs ++ erase t ys
erase-parts t [] ys d = refl
erase-parts t (x ∷ xs) ys (out, d) = elim (Bool-cases (t == x)) [
  | inl same ↦
      let e = (==_iff t x).0 same in
      let f = has-append x xs ys in
      let absent : has t ys ≡ false = ground arith in rw (same, erase-absent t ys absent) refl
  | inr other ↦ rw (other, erase-parts t xs ys d) refl
]

pub IsNodup-erase : (t : ℕ) (ts : List ℕ) → IsNodup ts → IsNodup (erase t ts)
IsNodup-erase t [] d = tt
IsNodup-erase t (x ∷ xs) (out, d) = elim (Bool-cases (t == x)) [
  | inl same ↦ rw same d
  | inr other ↦
      let ne : x ≢ t = ground arith in rw other (has-erase_ne x t xs ne ∙ out, IsNodup-erase t xs d)
]

pub length-erase : (t : ℕ) (ts : List ℕ) → length (erase t ts) ≤ length ts
length-erase t [] = omega arith
length-erase t (x ∷ xs) = ground (arith, length-erase t xs)

pub length-erase_lt : (t : ℕ) (ts : List ℕ) → has t ts ≡ true → length (erase t ts) < length ts
length-erase_lt t [] h = cc
length-erase_lt t (x ∷ xs) h = elim (Bool-cases (t == x)) [
  | inl same ↦ rw same (omega arith)
  | inr other ↦
      let m : has t xs ≡ true = rw other at h in rw other (omega (arith, length-erase_lt t xs m))
]
