-- ===== src/Tests/TwoEntries.antt =====
-- A slab of two entries, for the examples.
use easyfibers.Prelude.{
  ℕ, zero, suc, ◌+◌, ◌-◌, ◌<◌, ◌≡◌, ◌≢◌, refl, Bool, true, false, Option, none, some, ◌==◌,
  if◌then◌else◌, arith,
}
use easyfibers.Wheel.Slab.{empty, Entry, SlabApi}

-- The entries of the tokens 0 and 1.
pub record Two : Type 0 where
  pub first : Option Entry
  pub second : Option Entry

abbrev pub get_two : Two → ℕ → Option Entry
get_two s zero = s.first
get_two s (suc zero) = s.second
get_two s (suc (suc t)) = none

abbrev pub put_two : Two → ℕ → Option Entry → Two
put_two s zero e = record s { first = e }
put_two s (suc zero) e = record s { second = e }
put_two s (suc (suc t)) e = s

abbrev place : Option Entry → Option Entry → Entry → Option (ℕ × Two)
place none b e = some (0, record { first = some e; second = b })
place (some a) none e = some (1, record { first = some a; second = some e })
place (some a) (some b) e = none

abbrev free : Option Entry → Option Entry → Bool
free none b = true
free (some a) none = true
free (some a) (some b) = false

abbrev used : Option Entry → ℕ
used none = 0
used (some e) = 1

pub get-put_two :
    (s : Two) (t u : ℕ) (old e : Entry)
    → get_two s t ≡ some old
    → get_two (put_two s t (some e)) u ≡ (if u == t then some e else get_two s u)
get-put_two s zero zero old e h = refl
get-put_two s zero (suc zero) old e h = refl
get-put_two s zero (suc (suc u)) old e h = ground arith
get-put_two s (suc zero) zero old e h = refl
get-put_two s (suc zero) (suc zero) old e h = refl
get-put_two s (suc zero) (suc (suc u)) old e h = ground arith
get-put_two s (suc (suc t)) u old e h = cc

pub get-remove_two :
    (s : Two) (t u : ℕ) → get_two (put_two s t none) u ≡ (if u == t then none else get_two s u)
get-remove_two s zero zero = refl
get-remove_two s zero (suc zero) = refl
get-remove_two s zero (suc (suc u)) = ground arith
get-remove_two s (suc zero) zero = refl
get-remove_two s (suc zero) (suc zero) = refl
get-remove_two s (suc zero) (suc (suc u)) = ground arith
get-remove_two s (suc (suc t)) zero = ground arith
get-remove_two s (suc (suc t)) (suc zero) = ground arith
get-remove_two s (suc (suc t)) (suc (suc u)) = ground arith

pub insert-vacant_two : (a b : Option Entry) (e : Entry) → free a b ≡ true → place a b e ≢ none
insert-vacant_two none b e v h = cc
insert-vacant_two (some a) none e v h = cc
insert-vacant_two (some a) (some b) e v h = cc

pub insert-fresh_two :
    (a b : Option Entry) (s' : Two) (e : Entry) (t : ℕ)
    → place a b e ≡ some (t, s')
    → (get_two (record { first = a; second = b }) t ≡ none) × (t < empty)
insert-fresh_two none b s' e t h = let k : 0 ≡ t = cc in rw (← k) (refl, omega arith)
insert-fresh_two (some a) none s' e t h = let k : 1 ≡ t = cc in rw (← k) (refl, omega arith)
insert-fresh_two (some a) (some b) s' e t h = cc

get-put_vacant :
    (s : Two) (t u : ℕ) (e : Entry)
    → t < 2
    → get_two (put_two s t (some e)) u ≡ (if u == t then some e else get_two s u)
get-put_vacant s zero zero e h = refl
get-put_vacant s zero (suc zero) e h = refl
get-put_vacant s zero (suc (suc u)) e h = ground arith
get-put_vacant s (suc zero) zero e h = refl
get-put_vacant s (suc zero) (suc zero) e h = refl
get-put_vacant s (suc zero) (suc (suc u)) e h = ground arith
get-put_vacant s (suc (suc t)) u e h = absurd (omega arith)

pub get-insert_two :
    (a b : Option Entry) (s' : Two) (e : Entry) (t u : ℕ)
    → place a b e ≡ some (t, s')
    → get_two s' u ≡ (if u == t then some e else get_two (record { first = a; second = b }) u)
get-insert_two none b s' e t u h =
    let k : 0 ≡ t = cc in
    let l : record { first = some e; second = b } ≡ s' = cc in
    rw (← k, ← l) (get-put_vacant (record { first = none; second = b }) 0 u e (omega arith))
get-insert_two (some a) none s' e t u h =
    let k : 1 ≡ t = cc in
    let l : record { first = some a; second = some e } ≡ s' = cc in
    rw (← k, ← l) (get-put_vacant (record { first = some a; second = none }) 1 u e (omega arith))
get-insert_two (some a) (some b) s' e t u h = cc

instance abbrev pub two : SlabApi Two
two = record {
  with_capacity = λ n. record { first = none; second = none };
  len = λ s. used s.first + used s.second;
  available = λ s. 2 - (used s.first + used s.second);
  has_vacant = λ s. free s.first s.second;
  reserve_exact = λ s n. s;
  get = get_two;
  put = λ s t e. put_two s t (some e);
  insert = λ s e. place s.first s.second e;
  remove = λ s t. put_two s t none;
  get-with_capacity = λ n t. get_nothing t;
  get-reserve_exact = λ s n t. refl;
  get-put = get-put_two;
  get-remove = get-remove_two;
  insert-vacant = λ s e. insert-vacant_two s.first s.second e;
  insert-fresh = λ s s' e t. insert-fresh_two s.first s.second s' e t;
  get-insert = λ s s' e t u. get-insert_two s.first s.second s' e t u;
}
  where
    get_nothing : (t : ℕ) → get_two (record { first = none; second = none }) t ≡ none
    get_nothing zero = refl
    get_nothing (suc zero) = refl
    get_nothing (suc (suc t)) = refl
