-- ===== src/Tests/Timers.antt =====
-- src/wheel.rs and src/poller.rs on a slab of two entries.
use easyfibers.Prelude.{
  ℕ, ◌+◌, ◌<◌, ◌≤◌, ◌≡◌, refl, Option, none, some, List, [], ◌∷◌, ◌++◌, arith, length, get_elem?,
}
use easyfibers.Prelude.Slice.{index, assign}
use easyfibers.Prelude.Outcome.{◌>>=◌, ok}
use easyfibers.Wheel.Slab.{empty, reserved}
use easyfibers.Wheel
use easyfibers.Wheel.Cancel
use easyfibers.Wheel.Insert
use easyfibers.Wheel.Poll
use easyfibers.Wheel.{
  Run, Wheel, next_timeout, time_to_ticks, actual_tick, deferred, millis, reserve,
}
use easyfibers.Wheel.Earliest.{IsLeast, next_timeout-IsLeast}
use easyfibers.Wheel.Ticks.{time_to_ticks_lem, time_to_ticks-actual_tick, actual_tick-deferred}
use easyfibers.Poller.{split_id, fiber_id, push_ids}
use easyfibers.Poller.Ids.{split_id-fiber_id}
use easyfibers.Poller.Queues.{positions, push_ids-positions}
use easyfibers.Tests.TwoEntries.{Two, two}

-- A wheel of four slots with a tick of 250 ms, started at 7 ns, with one reserved entry.
abbrev pub four_slots : Wheel Two
four_slots = record {
  wheel =
      record { head = empty; next_timeout = none }
      ∷ record { head = empty; next_timeout = some 500_000_007 }
      ∷ record { head = empty; next_timeout = some 250_000_007 }
      ∷ record { head = empty; next_timeout = none }
      ∷ [];
  slab = record { first = some reserved; second = none };
  start = 7;
  cur_wheel_tick = 0;
  cur_slab_idx = empty;
  max_capacity = 2;
  tick_ms = 250;
  mask = 3;
}

next_timeout-IsLeast_example : IsLeast (next_timeout four_slots) none four_slots.wheel
next_timeout-IsLeast_example = next_timeout-IsLeast four_slots

time_to_ticks_lem_example : time_to_ticks four_slots 600_000_000 ≡ ok 2
time_to_ticks_lem_example =
    time_to_ticks_lem four_slots 600_000_000 (omega arith) (omega arith) (omega arith)

time_to_ticks-actual_tick_example : time_to_ticks four_slots (actual_tick four_slots 3) ≡ ok 3
time_to_ticks-actual_tick_example =
    time_to_ticks-actual_tick four_slots 3 (omega arith) (omega arith) (omega arith)

split_id-fiber_id_example : split_id (fiber_id 3 17) ≡ (3, 17)
split_id-fiber_id_example = split_id-fiber_id 3 17 (omega arith) (omega arith)

second_runner : (split_id 0x100_0000_0002).0 < 2
unfolding split_id
second_runner = omega arith

first_runner : (split_id 5).0 < 2
unfolding split_id
first_runner = omega arith

-- The ids of the second position of the runner 1, and of the fifth of the runner 0.
push_ids-positions_example :
    (queues' : List (List ℕ)) × (push_ids ((9 ∷ []) ∷ [] ∷ []) (0x100_0000_0002 ∷ 5 ∷ [])
      ≡ ok queues')
    × (length queues' ≡ 2)
    × ((runner : ℕ) (q : List ℕ)
        → get_elem? ((9 ∷ []) ∷ [] ∷ []) runner ≡ some q
        → get_elem? queues' runner ≡ some (q ++ positions runner (0x100_0000_0002 ∷ 5 ∷ [])))
push_ids-positions_example =
    push_ids-positions (0x100_0000_0002 ∷ 5 ∷ []) ((9 ∷ []) ∷ [] ∷ [])
      (second_runner, (first_runner, tt))

-- The task 42 is set for 600 ms, which is in the tick 2: it fires from 500 ms on, and not before.
abbrev fired_at : ℕ → Run (Option ℕ)
fired_at now = do
  w ← Insert.set_timeout four_slots 0 600_000_000 42
  (task, w) ← Poll.poll 9 w now
  ok task

fired_in_time : fired_at 500_000_007 ≡ ok (some 42)
unfolding Insert.set_timeout Insert.schedule Poll.poll Poll.poll_loop Poll.advance Poll.visit
    Cancel.remove_slab Cancel.unlink Cancel.set_prev Cancel.set_next Cancel.timeout_at Cancel.put_at
    Wheel.time_to_ticks Wheel.ticks_to_wheel_idx Wheel.actual_tick Wheel.clear_timeout index assign
fired_in_time = refl

not_yet_fired : fired_at 499_999_999 ≡ ok none
unfolding Insert.set_timeout Insert.schedule Poll.poll Poll.poll_loop Poll.advance Poll.visit
    Cancel.remove_slab Cancel.unlink Cancel.set_prev Cancel.set_next Cancel.timeout_at Cancel.put_at
    Wheel.time_to_ticks Wheel.ticks_to_wheel_idx Wheel.actual_tick Wheel.clear_timeout index assign
not_yet_fired = refl

actual_tick-deferred_example :
    (tick : ℕ) × (time_to_ticks four_slots 600_000_000 ≡ ok tick)
    × (actual_tick four_slots (deferred tick 0) ≤ 600_000_000)
    × (600_000_000 < actual_tick four_slots (deferred tick 0) + 250_000_000)
actual_tick-deferred_example =
    actual_tick-deferred four_slots 600_000_000 (omega arith) (omega arith) (omega arith)
      (omega arith) (omega arith)
