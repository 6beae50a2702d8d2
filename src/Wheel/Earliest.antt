-- ===== src/Wheel/Earliest.antt =====
-- src/wheel.rs: what `next_timeout` answers.
use easyfibers.Prelude.{
  ℕ, ◌≤◌, ◌≡◌, refl, List, [], ◌∷◌, Option, none, some, arith, ltb, Bool-cases, ◌⊎◌, inl, inr,
}
use easyfibers.Wheel.{Slot, Wheel, next_timeout, min_loop, keep_min}

-- The slot with the timeout `t` is one of `slots`.
pub data HasTimeout (t : ℕ) : List Slot → Type 0 where
  here : {s : Slot} {slots : List Slot} → s.next_timeout ≡ some t → HasTimeout t (s ∷ slots)
  there : {s : Slot} {slots : List Slot} → HasTimeout t slots → HasTimeout t (s ∷ slots)

-- `min` is the least of the timeout `found` and those of `slots`.
pub record IsLeast (min found : Option ℕ) (slots : List Slot) : Type 0 where
  pub attained : (t : ℕ) → min ≡ some t → (found ≡ some t) ⊎ HasTimeout t slots
  pub before_found : (u : ℕ) → found ≡ some u → (t : ℕ) × (min ≡ some t) × (t ≤ u)
  pub before_slots : (u : ℕ) → HasTimeout u slots → (t : ℕ) × (min ≡ some t) × (t ≤ u)

keep_min-found :
    (found at_slot : Option ℕ) (u : ℕ)
    → found ≡ some u
    → (t : ℕ) × (keep_min found at_slot ≡ some t) × (t ≤ u)
keep_min-found none at_slot u e = cc
keep_min-found (some b) none u e = (b, refl, ground arith)
keep_min-found (some b) (some a) u e = elim (Bool-cases (ltb b a)) [
  | inl h ↦ (b, rw h refl, ground arith)
  | inr h ↦ (a, rw h refl, ground arith)
]

keep_min-slot :
    (found at_slot : Option ℕ) (u : ℕ)
    → at_slot ≡ some u
    → (t : ℕ) × (keep_min found at_slot ≡ some t) × (t ≤ u)
keep_min-slot found none u e = cc
keep_min-slot none (some a) u e = (a, refl, ground arith)
keep_min-slot (some b) (some a) u e = elim (Bool-cases (ltb b a)) [
  | inl h ↦ (b, rw h refl, ground arith)
  | inr h ↦ (a, rw h refl, ground arith)
]

keep_min-one :
    (found at_slot : Option ℕ) (t : ℕ)
    → keep_min found at_slot ≡ some t
    → (found ≡ some t) ⊎ (at_slot ≡ some t)
keep_min-one found none t e = inl e
keep_min-one none (some a) t e = inr e
keep_min-one (some b) (some a) t e = elim (Bool-cases (ltb b a)) [
  | inl h ↦ inl (rw h at e)
  | inr h ↦ inr (rw h at e)
]

min_loop-IsLeast :
    (found : Option ℕ) (slots : List Slot) → IsLeast (min_loop found slots) found slots
unfolding min_loop
min_loop-IsLeast found [] = record {
  attained = λ t e. inl e;
  before_found = λ u e. (u, e, omega arith);
  before_slots = λ u h. elim h [ ];
}
min_loop-IsLeast found (s ∷ slots) =
    let ih = min_loop-IsLeast (keep_min found s.next_timeout) slots in
    let down : (u : ℕ)
        → ((t : ℕ) × (keep_min found s.next_timeout ≡ some t) × (t ≤ u))
        → (t : ℕ) × (min_loop (keep_min found s.next_timeout) slots ≡ some t) × (t ≤ u) =
      λ u (t, e, l). let (t', e', l') = ih.before_found t e in (t', e', omega arith) in
    record {
      attained = λ t e. elim (ih.attained t e) [
        | inl f ↦ elim (keep_min-one found s.next_timeout t f) [
          | inl h ↦ inl h
          | inr h ↦ inr (here h)
        ]
        | inr h ↦ inr (there h)
      ];
      before_found = λ u e. down u (keep_min-found found s.next_timeout u e);
      before_slots = λ u h. elim h [
        | here e ↦ down u (keep_min-slot found s.next_timeout u e)
        | there i ↦ ih.before_slots u i
      ];
    }

-- `next_timeout` is the least of the slots' timeouts, and `None` only if no slot has one.
pub next_timeout-IsLeast :
    {Store : Type 0} (w : Wheel Store) → IsLeast (next_timeout w) none w.wheel
unfolding next_timeout
next_timeout-IsLeast w = min_loop-IsLeast none w.wheel
