-- ===== src/Tests/Refined.antt =====
-- src/wheel.rs and src/poller.rs: runs of calls on a slab of two entries.
use easyfibers.Prelude.{ℕ, zero, suc, ◌≤◌, ◌≡◌, refl, Option, none, some, List, [], ◌∷◌, arith, inl}
use easyfibers.Prelude.Slice.{index, assign}
use easyfibers.Prelude.Outcome.{Outcome, ok, err, panic, stuck}
use easyfibers.TimerBuilder
use easyfibers.Wheel
use easyfibers.Wheel.Cancel
use easyfibers.Wheel.Insert
use easyfibers.Wheel.Poll
use easyfibers.Wheel.{Wheel, Run}
use easyfibers.Wheel.Slab.{empty}
use easyfibers.Wheel.Linked.{view}
use easyfibers.Wheel.Spec
use easyfibers.Wheel.Spec.{Op, Held, Timers, Clock, Step, Steps, no_timers, clock_of}
use easyfibers.Wheel.Refinement.{Refines, Legal, call, known}
use easyfibers.Wheel.Refinement.Traces.{Trace, stopped, called, call-Refines, new-Trace-Refines}
use easyfibers.Poller.{PollerInt, poll}
use easyfibers.Tests.TwoEntries.{Two, two}
use easyfibers.Tests.Wheels.{timed, chain, get_above, room, timed-IsWheel}

abbrev clock : Clock
clock = record { start = 7; tick_ms = 250 }

abbrev held : ℕ → Held
held zero = some (some (42, 500_000_007))
held (suc t) = none

abbrev timers : Timers
timers = record { held = held; current = 0 }

timed-Refines : Refines clock timed timers
timed-Refines = record {
  chain = chain;
  seen = [];
  rest = [];
  room = 1;
  is_wheel = timed-IsWheel;
  fits = room;
  held = held_at;
  current = refl;
  start = refl;
  tick_ms = refl;
}
  where
    held_at : (t : ℕ) → known (view (two.get timed.slab t)) ≡ held t
    held_at zero = refl
    held_at (suc t) = rw (get_above t) refl

call-Refines_example :
    (answer : Option ℕ) × (w' : Wheel Two) × (s' : Timers) × (enough : ℕ) × ((fuel : ℕ)
      → enough ≤ fuel
      → call fuel (Spec.poll 510_000_007) timed ≡ ok (answer, w'))
    × Step clock timers (Spec.poll 510_000_007) answer s'
    × Refines clock w' s'
unfolding Legal
call-Refines_example =
    call-Refines clock timed timers (Spec.poll 510_000_007) timed-Refines (omega arith, omega arith)

abbrev poller : PollerInt Two
poller = record {
  free_stacks = [];
  wheel = timed;
  stack_size = none;
  toexec_fibers = (9 ∷ []) ∷ [] ∷ [];
  timedout_fibers = [] ∷ [] ∷ [];
  lookup_results = [] ∷ [] ∷ [];
}

-- Four slots and a tick of 250 ms.
abbrev settings : TimerBuilder.Builder
settings = record TimerBuilder.new {
  num_slots = some 4;
  tick_duration = some 250_000_000;
  max_capacity = some 2;
}

abbrev after : {A W : Type 0} → Outcome ⊥ (A × W) → W → W
after (ok (a, w)) w0 = w
after (err e) w0 = w0
after panic w0 = w0
after stuck w0 = w0

abbrev w0 : Wheel Two
w0 = record {
  wheel =
      record { head = empty; next_timeout = none }
      ∷ record { head = empty; next_timeout = none }
      ∷ record { head = empty; next_timeout = none }
      ∷ record { head = empty; next_timeout = none }
      ∷ [];
  slab = record { first = none; second = none };
  start = 7;
  cur_wheel_tick = 0;
  cur_slab_idx = empty;
  max_capacity = 2;
  tick_ms = 250;
  mask = 3;
}

abbrev w1 : Wheel Two
w1 = after (call 0 Spec.reserve w0) w0

abbrev w2 : Wheel Two
w2 = after (call 0 (Spec.set_timeout 0 600_000_000 42) w1) w1

abbrev w3 : Wheel Two
w3 = after (call 9 (Spec.poll 510_000_007) w2) w2

abbrev calls : List (Op × Option ℕ)
calls =
    (Spec.reserve, some 0)
    ∷ (Spec.set_timeout 0 600_000_000 42, none)
    ∷ (Spec.poll 510_000_007, some 42)
    ∷ []

made : Wheel.new settings 7 ≡ ok w0
unfolding Wheel.new Wheel.millis TimerBuilder.get_num_slots TimerBuilder.get_initial_capacity
    TimerBuilder.get_channel_capacity TimerBuilder.get_max_capacity TimerBuilder.get_tick_duration
made = refl

trace : Trace w0 calls w3
unfolding call Legal Wheel.reserve Insert.set_timeout Insert.schedule Poll.poll Poll.poll_loop
    Poll.advance Poll.visit Cancel.remove_slab Cancel.unlink Cancel.set_prev Cancel.set_next
    Cancel.timeout_at Cancel.put_at Wheel.time_to_ticks Wheel.ticks_to_wheel_idx Wheel.actual_tick
    Wheel.clear_timeout index assign
trace = called 0 (inl refl) refl (
    called 0 (refl, omega arith, omega arith, omega arith, omega arith) refl
      (called 9 (omega arith, omega arith) refl stopped))

new-Trace-Refines_example :
    (s' : Timers) × Steps (clock_of settings 7) no_timers calls s'
    × Refines (clock_of settings 7) w3 s'
unfolding TimerBuilder.get_num_slots TimerBuilder.get_tick_duration
new-Trace-Refines_example =
    new-Trace-Refines settings 7 (λ k. omega arith) refl (omega arith) made trace
