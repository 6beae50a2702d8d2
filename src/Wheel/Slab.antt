-- ===== src/Wheel/Slab.antt =====
-- What src/wheel.rs calls of the crate slab, as a parameter: a store of entries under tokens.
use easyfibers.Prelude.{
  ℕ, ◌<◌, ◌≡◌, ◌≢◌, ◌^◌, ◌-◌, Bool, true, Option, none, some, ◌==◌, if◌then◌else◌,
}

-- `EMPTY`, `Token(usize::MAX)` on a machine of 64 bits.
abbrev pub empty : ℕ
empty = 2 ^ 64 - 1

pub record Timeout : Type 0 where
  pub task : ℕ
  pub when : ℕ
  pub wheel_idx : ℕ
  pub prev : ℕ
  pub next : ℕ

pub data Entry : Type 0 where
  reserved : Entry
  timeout : Timeout → Entry

-- The operations on a store. `put` is assignment through `IndexMut` or a `&mut` of `get_mut`; the
-- callers do it only where `get` finds an entry. `insert` gives the token and the new store, or
-- nothing where it answers `Err`. The laws are the documented behaviour: a token is good until it
-- is removed, and no other entry is touched.
pub record SlabApi (Store : Type 0) : Type 0 where
  pub with_capacity : ℕ → Store
  pub len : Store → ℕ
  pub available : Store → ℕ
  pub has_vacant : Store → Bool
  pub reserve_exact : Store → ℕ → Store
  pub get : Store → ℕ → Option Entry
  pub put : Store → ℕ → Entry → Store
  pub insert : Store → Entry → Option (ℕ × Store)
  pub remove : Store → ℕ → Store
  pub get-with_capacity : (n t : ℕ) → get (with_capacity n) t ≡ none
  pub get-reserve_exact : (s : Store) (n t : ℕ) → get (reserve_exact s n) t ≡ get s t
  pub get-put :
      (s : Store) (t u : ℕ) (old e : Entry)
      → get s t ≡ some old
      → get (put s t e) u ≡ (if u == t then some e else get s u)
  pub get-remove : (s : Store) (t u : ℕ) → get (remove s t) u ≡ (if u == t then none else get s u)
  pub insert-vacant : (s : Store) (e : Entry) → has_vacant s ≡ true → insert s e ≢ none
  pub insert-fresh :
      (s s' : Store) (e : Entry) (t : ℕ)
      → insert s e ≡ some (t, s')
      → (get s t ≡ none) × (t < empty)
  pub get-insert :
      (s s' : Store) (e : Entry) (t u : ℕ)
      → insert s e ≡ some (t, s')
      → get s' u ≡ (if u == t then some e else get s u)
