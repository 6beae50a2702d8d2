-- ===== src/Tests/Wheels.antt =====
-- src/wheel.rs: the invariant of the wheel on a slab of two entries.
use easyfibers.Prelude.{
  ℕ, zero, suc, ◌≤◌, ◌≡◌, refl, sym, subst, true, Option, none, some, List, [], ◌∷◌, arith, length,
  get_elem?,
}
use easyfibers.Prelude.Outcome.{ok}
use easyfibers.TimerBuilder
use easyfibers.Wheel.{Wheel, Slot, new, millis, time_to_ticks, ticks_to_wheel_idx}
use easyfibers.Wheel.Slab.{empty, reserved, timeout}
use easyfibers.Wheel.Chain.{nil, cons}
use easyfibers.Wheel.Tokens.{has, IsNodup}
use easyfibers.Wheel.Linked.{view, timer_fields, IsChain, IsWheel}
use easyfibers.Wheel.Cancel.{cancel}
use easyfibers.Wheel.Cancel.Removal.{Removed}
use easyfibers.Wheel.Cancel.Cancelled.{cancel-Removed}
use easyfibers.Wheel.Insert.{set_timeout}
use easyfibers.Wheel.Insert.Inserted.{Inserted, set_timeout-Inserted}
use easyfibers.Wheel.Poll.{poll}
use easyfibers.Wheel.Poll.Polled.{Polled, poll-Polled}
use easyfibers.Wheel.Fresh.{new-IsWheel, Reserved-IsWheel}
use easyfibers.Tests.TwoEntries.{Two, two}
use easyfibers.Tests.Timers.{four_slots}

-- The task 42 at the tick 2, in the slot 2.
abbrev pub timed : Wheel Two
timed = record four_slots {
  wheel =
      record { head = empty; next_timeout = none }
      ∷ record { head = empty; next_timeout = some 500_000_007 }
      ∷ record { head = 0; next_timeout = some 250_000_007 }
      ∷ record { head = empty; next_timeout = none }
      ∷ [];
  slab = record {
    first = some (
        timeout
          (record { task = 42; when = 500_000_007; wheel_idx = 2; prev = empty; next = empty }));
    second = none;
  };
}

abbrev pub chain : ℕ → List ℕ
chain zero = []
chain (suc zero) = []
chain (suc (suc zero)) = 0 ∷ []
chain (suc (suc (suc i))) = []

pub get_above : (a : ℕ) → two.get timed.slab (suc a) ≡ none
get_above zero = refl
get_above (suc a) = refl

pub timed-IsWheel : IsWheel timed chain [] []
unfolding time_to_ticks ticks_to_wheel_idx
timed-IsWheel = record {
  size = refl;
  ticking = omega arith;
  unused = refl;
  linked = linked_at;
  nodup = nodup_at;
  timers = timers_at;
  split = refl;
  cursor = refl;
}
  where
    alone : (s : Slot) (i : ℕ) → s.head ≡ empty → IsChain (two.get timed.slab) i s.head []
    alone s i e = (empty, nil refl e)

    linked_at :
        (i : ℕ) (s : Slot)
        → get_elem? timed.wheel i ≡ some s
        → IsChain (two.get timed.slab) i s.head (chain i)
    linked_at zero s e = alone s 0 cc
    linked_at (suc zero) s e = alone s 1 cc
    linked_at (suc (suc zero)) s e = (0, cons (cc) refl refl refl (nil refl refl))
    linked_at (suc (suc (suc i))) s e = (empty, nil refl (three i e))
      where
        three : (i : ℕ) → get_elem? timed.wheel (suc (suc (suc i))) ≡ some s → s.head ≡ empty
        three zero e = cc
        three (suc i) e = cc

    nodup_at : (i : ℕ) → IsNodup (chain i)
    nodup_at zero = tt
    nodup_at (suc zero) = tt
    nodup_at (suc (suc zero)) = (refl, tt)
    nodup_at (suc (suc (suc i))) = tt

    timers_at :
        (t task when idx : ℕ)
        → view (two.get timed.slab t) ≡ some (some (task, when, idx))
        → (tick : ℕ) × (time_to_ticks timed when ≡ ok tick)
          × (idx ≡ ticks_to_wheel_idx timed tick)
          × (has t (chain idx) ≡ true)
          × (0 ≤ tick)
          × (tick ≡ 0 → has t [] ≡ true)
    timers_at zero task when idx e =
        let (at_when, at_slot) = timer_fields e in
        (
          2,
          subst (λ (x : ℕ). time_to_ticks timed x ≡ ok 2) at_when refl,
          sym at_slot,
          subst (λ (x : ℕ). has 0 (chain x) ≡ true) at_slot refl,
          omega arith,
          λ k. absurd (omega arith),
        )
    timers_at (suc t) task when idx e = cc (get_above t)

pub room : (i : ℕ) → length (chain i) ≤ 1
room zero = omega arith
room (suc zero) = omega arith
room (suc (suc zero)) = omega arith
room (suc (suc (suc i))) = omega arith

cancel-Removed_example :
    (slots : List Slot) × (slab : Two) × (cursor : ℕ) × (cancel timed 0
      ≡ ok (record timed { wheel = slots; slab = slab; cur_slab_idx = cursor }))
    × Removed timed timed-IsWheel 0 slots slab cursor
cancel-Removed_example = cancel-Removed timed timed-IsWheel 0

poll-Polled_example :
    (o : Option ℕ) × (w' : Wheel Two) × (poll 6 timed 510_000_007 ≡ ok (o, w'))
    × Polled timed chain 2 o w'
poll-Polled_example =
    poll-Polled timed timed-IsWheel 510_000_007 1 6 (omega arith) (omega arith) room (omega arith)

new-IsWheel_example :
    (w : Wheel Two) × (new TimerBuilder.new 7 ≡ ok w)
    × IsWheel w (λ _. []) [] []
    × ((t : ℕ) → two.get w.slab t ≡ none)
    × (w.cur_wheel_tick ≡ 0)
    × (w.start ≡ 7)
    × (w.tick_ms ≡ millis (TimerBuilder.get_tick_duration TimerBuilder.new))
unfolding TimerBuilder.get_num_slots TimerBuilder.get_tick_duration
new-IsWheel_example = new-IsWheel TimerBuilder.new 7 (λ k. omega arith) refl (omega arith)

-- The wheel with the token 1 reserved.
abbrev ready : Wheel Two
ready = record timed { slab = record timed.slab { second = some reserved } }

ready-IsWheel : IsWheel ready chain [] []
ready-IsWheel =
    Reserved-IsWheel timed (some 1) ready.slab timed-IsWheel
      (refl, omega arith, λ t. two.get-insert timed.slab ready.slab reserved 1 t refl)

set_timeout-Inserted_example :
    (slots : List Slot) × (slab : Two) × (set_timeout ready 1 600_000_000 7
      ≡ ok (record ready { wheel = slots; slab = slab }))
    × Inserted ready ready-IsWheel 1 2 7 slots slab
set_timeout-Inserted_example =
    set_timeout-Inserted ready ready-IsWheel 1 600_000_000 7 refl (omega arith) (omega arith)
      (omega arith) (omega arith)
