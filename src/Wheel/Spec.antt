-- ===== src/Wheel/Spec.antt =====
-- src/wheel.rs: what the wheel promises to its users, with no slots and no lists: tokens, of which
-- some have a timer, and a clock.
use easyfibers.Prelude.{
  ℕ, ◌+◌, ◌-◌, ◌*◌, ◌/◌, ◌≤◌, ◌<◌, ◌≡◌, List, [], ◌∷◌, Option, none, some, ◌==◌, if◌then◌else◌,
}
use easyfibers.TimerBuilder.{Builder, get_tick_duration}
use easyfibers.Wheel.{millis}
use easyfibers.Wheel.Poll.Polled.{ahead}
use easyfibers.Wheel.Linked.{coming_tick}

-- A call of the wheel.
pub data Op : Type 0 where
  reserve : Op
  release : ℕ → Op
  cancel : ℕ → Op
  set_timeout : ℕ → ℕ → ℕ → Op
  move_timeout : ℕ → ℕ → ℕ → Op
  poll : ℕ → Op

-- A token is free, reserved, or has a timer with its task and its time.
abbrev pub Held : Type 0
Held = Option (Option (ℕ × ℕ))

-- The tokens, and the tick that was reached.
pub record Timers : Type 0 where
  pub held : ℕ → Held
  pub current : ℕ

pub record Clock : Type 0 where
  pub start : ℕ
  pub tick_ms : ℕ

-- The tick of a time, and the time of a tick.
abbrev pub tick_of : Clock → ℕ → ℕ
tick_of c time = (time - c.start) / 1_000_000 / c.tick_ms

abbrev pub instant : Clock → ℕ → ℕ
instant c tick = c.start + c.tick_ms * 1_000_000 * tick

-- The clock and the timers of a new wheel.
abbrev pub clock_of : Builder → ℕ → Clock
clock_of builder start = record { start = start; tick_ms = millis (get_tick_duration builder) }

abbrev pub no_timers : Timers
no_timers = record { held = λ t. none; current = 0 }

abbrev pub update : Timers → ℕ → Held → Timers
update s t x = record s { held = λ a. if a == t then x else s.held a }

-- The timer with another task, where it has the time.
abbrev pub retask : ℕ → ℕ → Held → Held
retask when task (some (some (old, time))) =
    if time == when then some (some (task, time)) else some (some (old, time))
retask when task (some none) = some none
retask when task none = none

-- What a call may answer, and what it leaves. A timer that is set goes to the tick of its time, or to
-- the one after the current tick; a poll answers the task of one timer whose tick was reached, and
-- that timer is gone; or there is none, and no tick up to that of the time is reached again.
pub data Step (c : Clock) (s : Timers) : Op → Option ℕ → Timers → Type 0 where
  full : Step c s reserve none s
  reserved : {t : ℕ} → s.held t ≡ none → Step c s reserve (some t) (update s t (some none))
  released : {t : ℕ} → Step c s (release t) none (update s t none)
  cancelled : {t : ℕ} → Step c s (cancel t) none (update s t none)
  set :
      {t time task : ℕ}
      → s.held t ≡ some none
      → Step c s
          (set_timeout t time task)
          none
          (update s t (some (some (task, instant c (coming_tick (tick_of c time) s.current)))))
  moved :
      {t when task : ℕ}
      → Step c s (move_timeout t when task) none (update s t (retask when task (s.held t)))
  fired :
      {t task when time tick : ℕ}
      → s.held t ≡ some (some (task, when))
      → tick_of c when ≤ tick_of c time
      → s.current ≤ tick
      → tick ≤ tick_of c time
      → Step c s (poll time) (some task) (record (update s t none) { current = tick })
  idle :
      {time : ℕ}
      → ((t task when : ℕ) → s.held t ≡ some (some (task, when)) → tick_of c time < tick_of c when)
      → Step c s (poll time) none (record s { current = ahead (tick_of c time) s.current })

-- Calls with their answers, one after the other.
pub data Steps (c : Clock) : Timers → List (Op × Option ℕ) → Timers → Type 0 where
  stop : {s : Timers} → Steps c s [] s
  step :
      {op : Op} {answer : Option ℕ} {s s1 s' : Timers} {calls : List (Op × Option ℕ)}
      → Step c s op answer s1
      → Steps c s1 calls s'
      → Steps c s ((op, answer) ∷ calls) s'
