-- ===== src/Wheel/Linked.antt =====
-- src/wheel.rs: the invariant of a wheel.
use easyfibers.Prelude.{
  ltb, if◌then◌else◌, ℕ, suc, ◌≤◌, ◌<◌, ◌≡◌, refl, List, [], ◌∷◌, ◌++◌, Option, none, some, length,
  get_elem?, true,
}
use easyfibers.Prelude.Outcome.{ok}
use easyfibers.Wheel.{Slot, Wheel, time_to_ticks, ticks_to_wheel_idx}
use easyfibers.Wheel.Slab.{empty, Entry, reserved, timeout, SlabApi}
use easyfibers.Wheel.Chain.{Memory, Seg, nil, cons}
use easyfibers.Wheel.Tokens.{has, IsNodup}

-- The tick that a timer for `tick` waits for: the first one that is ahead of `cur` and not before it.
abbrev pub coming_tick : ℕ → ℕ → ℕ
coming_tick tick cur = if ltb cur tick then tick else suc cur

-- What an entry is for the users of the wheel: no entry, a reserved one, or a timer with its task
-- and its time, and the slot that it is in. The links are forgotten.
abbrev pub Timer : Type 0
Timer = ℕ × ℕ × ℕ

abbrev pub timer_of : Entry → Option Timer
timer_of reserved = none
timer_of (timeout v) = some (v.task, v.when, v.wheel_idx)

abbrev pub view : Option Entry → Option (Option Timer)
view none = none
view (some e) = some (timer_of e)

-- A timer has one time and one slot.
abbrev pub timer_at : ℕ → ℕ → ℕ → Option (Option Timer)
timer_at task when i = some (some (task, when, i))

pub timer_fields : {a b c a' b' c' : ℕ} → timer_at a b c ≡ timer_at a' b' c' → (b ≡ b') × (c ≡ c')
timer_fields e = (cc, cc)

-- The token at the front of a list, `EMPTY` if there is none.
abbrev pub front_of : List ℕ → ℕ
front_of [] = empty
front_of (t ∷ ts) = t

-- The entries of a slot are a list from its head on, linked both ways.
abbrev pub IsChain : Memory → ℕ → ℕ → List ℕ → Type 0
IsChain mem idx head ts = (last : ℕ) × Seg mem idx last empty empty head ts

-- In the wheel `w` the slot `i` holds the tokens `chain i`. Of those of the current slot, `seen` were
-- visited by `poll` in this tick, and `rest` were not. A timer is in the slot of its tick, no timer
-- is behind the wheel, and those of the current tick are still to be visited.
pub record IsWheel {Store : Type 0} ⦃api : SlabApi Store⦄ (w : Wheel Store) (chain : ℕ → List ℕ)
    (seen rest : List ℕ) : Type 0 where
  pub size : length w.wheel ≡ suc w.mask
  pub ticking : 0 < w.tick_ms
  pub unused : api.get w.slab empty ≡ none
  pub linked :
      (i : ℕ) (s : Slot)
      → get_elem? w.wheel i ≡ some s
      → IsChain (api.get w.slab) i s.head (chain i)
  pub nodup : (i : ℕ) → IsNodup (chain i)
  pub timers :
      (t task when idx : ℕ)
      → view (api.get w.slab t) ≡ some (some (task, when, idx))
      → (tick : ℕ) × (time_to_ticks w when ≡ ok tick)
        × (idx ≡ ticks_to_wheel_idx w tick)
        × (has t (chain idx) ≡ true)
        × (w.cur_wheel_tick ≤ tick)
        × (tick ≡ w.cur_wheel_tick → has t rest ≡ true)
  pub split : chain (ticks_to_wheel_idx w w.cur_wheel_tick) ≡ seen ++ rest
  pub cursor : w.cur_slab_idx ≡ front_of rest

pub view-none : (o : Option Entry) → view o ≡ none → o ≡ none
view-none none h = refl
view-none (some e) h = cc

pub Seg-front :
    {mem : Memory} {idx last before head : ℕ} {ts : List ℕ}
    → Seg mem idx last empty before head ts
    → head ≡ front_of ts
Seg-front (nil l h) = h
Seg-front (cons h e i p s) = h
