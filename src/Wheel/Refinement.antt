-- ===== src/Wheel/Refinement.antt =====
-- src/wheel.rs: the calls of the wheel, against what it promises (Wheel.Spec).
pub mod Calls
pub mod Rounds
pub mod Traces
use easyfibers.Prelude.{
  ℕ, bit_and, suc, ◌+◌, ◌-◌, ◌*◌, ◌/◌, ◌%◌, ◌^◌, ◌≤◌, ◌<◌, ◌≡◌, ◌≢◌, refl, sym, ap, ◌∙◌, subst,
  Bool, true, false, List, [], ◌∷◌, Option, none, some, length, arith, ◌==◌, ==_iff, if◌then◌else◌,
  Bool-cases, ◌⊎◌, inl, inr,
}
use easyfibers.Prelude.Outcome.{ok, ok_of, ◌>>=◌}
use easyfibers.Wheel
use easyfibers.TimerBuilder.{Builder, get_num_slots, get_tick_duration}
use easyfibers.Wheel.{Wheel, Run, time_to_ticks, actual_tick}
use easyfibers.Wheel.Slab.{Timeout, Entry, reserved, timeout, SlabApi}
use easyfibers.Wheel.Tokens.{erased, length-erase}
use easyfibers.Wheel.Ticks.{SameSettings, time_to_ticks-ok}
use easyfibers.Wheel.Linked.{coming_tick, Timer, view, IsWheel}
use easyfibers.Wheel.Cancel
use easyfibers.Wheel.Cancel.Cancelled.{cancel-Removed, release-IsWheel}
use easyfibers.Wheel.Insert
use easyfibers.Wheel.Insert.Heads.{pushed}
use easyfibers.Wheel.Insert.Inserted.{set_timeout-Inserted}
use easyfibers.Wheel.Insert.Moved.{retasked, move_timeout-Moved}
use easyfibers.Wheel.Reserve.{Reserved}
use easyfibers.Wheel.Fresh.{new-IsWheel, reserve-IsWheel}
use easyfibers.Wheel.Poll
use easyfibers.Wheel.Poll.Polled.{Polled, idle, due, ahead, rounds, poll-Polled}
use easyfibers.Wheel.Poll.Fuel.{poll-more}
use easyfibers.Wheel.Spec
use easyfibers.Wheel.Spec.{
  Op, Held, Timers, Clock, Step, Steps, no_timers, clock_of, stop, step, tick_of, instant, update,
  retask,
}

-- The slot of a timer is forgotten.
abbrev pub known : Option (Option Timer) → Held
known none = none
known (some none) = some none
known (some (some (task, when, idx))) = some (some (task, when))

module _ {Store : Type 0} ⦃api : SlabApi Store⦄ where
  -- A call of the wheel, with what it answers.
  unfoldable pub call : ℕ → Op → Wheel Store → Run (Option ℕ × Wheel Store)
  call fuel Spec.reserve w = Wheel.reserve w
  call fuel (Spec.release t) w = ok (none, Wheel.release w t)
  call fuel (Spec.cancel t) w = do w ← Cancel.cancel w t; ok (none, w)
  call fuel (Spec.set_timeout t time task) w = do w ← Insert.set_timeout w t time task; ok (none, w)
  call fuel (Spec.move_timeout t when task) w = ok (none, Insert.move_timeout w t when task)
  call fuel (Spec.poll time) w = Poll.poll fuel w time

  -- What a caller of the wheel has to see to: a timer is not released but cancelled, it is set for a
  -- reserved token, times are not before the start and fit the words, and the slab has room or may
  -- grow.
  unfoldable pub Legal : Wheel Store → Op → Type 0
  Legal w Spec.reserve = (api.has_vacant w.slab ≡ true) ⊎ (api.len w.slab ≤ w.max_capacity)
  Legal w (Spec.release t) = (v : Timeout) → api.get w.slab t ≢ some (timeout v)
  Legal w (Spec.cancel t) = Unit
  Legal w (Spec.set_timeout t time task) =
      (api.get w.slab t ≡ some reserved)
      × (w.start ≤ time)
      × ((time - w.start) / 1_000_000 < 2 ^ 64)
      × (coming_tick ((time - w.start) / 1_000_000 / w.tick_ms) w.cur_wheel_tick < 2 ^ 32)
      × (coming_tick ((time - w.start) / 1_000_000 / w.tick_ms) w.cur_wheel_tick * w.tick_ms
          < 2 ^ 64)
  Legal w (Spec.move_timeout t when task) = Unit
  Legal w (Spec.poll time) = (w.start ≤ time) × ((time - w.start) / 1_000_000 < 2 ^ 64)

  -- The wheel is in order, and its tokens and its tick are those of `s`.
  pub record Refines (c : Clock) (w : Wheel Store) (s : Timers) : Type 0 where
    pub chain : ℕ → List ℕ
    pub seen : List ℕ
    pub rest : List ℕ
    pub room : ℕ
    pub is_wheel : IsWheel w chain seen rest
    pub fits : (i : ℕ) → length (chain i) ≤ room
    pub held : (t : ℕ) → known (view (api.get w.slab t)) ≡ s.held t
    pub current : w.cur_wheel_tick ≡ s.current
    pub start : w.start ≡ c.start
    pub tick_ms : w.tick_ms ≡ c.tick_ms

  -- A call that returns as it is promised, given enough fuel.
  abbrev pub Refined : Clock → Wheel Store → Timers → Op → Type 0
  Refined c w s op =
      (answer : Option ℕ) × (w' : Wheel Store) × (s' : Timers) × (enough : ℕ) × ((fuel : ℕ)
        → enough ≤ fuel
        → call fuel op w ≡ ok (answer, w'))
      × Step c s op answer s'
      × Refines c w' s'
