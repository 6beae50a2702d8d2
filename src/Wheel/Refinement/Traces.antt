-- ===== src/Wheel/Refinement/Traces.antt =====
-- src/wheel.rs: runs of calls of the wheel, against what it promises.
use easyfibers.Prelude.{
  ℕ, bit_and, ◌+◌, ◌-◌, ◌≤◌, ◌<◌, ◌≡◌, ◌≢◌, sym, ap, ◌∙◌, subst, List, [], ◌∷◌, Option, arith,
}
use easyfibers.Prelude.Outcome.{ok, ok_of}
use easyfibers.Wheel
use easyfibers.TimerBuilder.{Builder, get_num_slots, get_tick_duration}
use easyfibers.Wheel.{Wheel, Run, deferred, time_to_ticks, actual_tick}
use easyfibers.Wheel.Slab.{SlabApi}
use easyfibers.Wheel.Linked.{view}
use easyfibers.Wheel.Fresh.{new-IsWheel}
use easyfibers.Wheel.Poll.Fuel.{poll-more}
use easyfibers.Wheel.Spec
use easyfibers.Wheel.Spec.{
  Op, Held, Timers, Clock, Step, Steps, no_timers, clock_of, stop, step, tick_of, instant, update,
  retask,
}
use easyfibers.Wheel.Refinement.{known, call, Legal, Refines}
use easyfibers.Wheel.Refinement.Calls.{
  reserve-Refined, release-Refined, cancel-Refined, set_timeout-Refined,
}
use easyfibers.Wheel.Refinement.Rounds.{move_timeout-Refined, poll-Refined}

module _ {Store : Type 0} ⦃api : SlabApi Store⦄ where
  -- Every call that is used as it has to be is one that the wheel promises: on a wheel in order that
  -- holds the timers of `s`, it returns, given enough fuel, with an answer that is allowed, and the
  -- wheel is in order and holds the timers that are left.
  pub call-Refines :
      (c : Clock) (w : Wheel Store) (s : Timers) (op : Op)
      → Refines c w s
      → Legal w op
      → (answer : Option ℕ) × (w' : Wheel Store) × (s' : Timers) × (enough : ℕ) × ((fuel : ℕ)
          → enough ≤ fuel
          → call fuel op w ≡ ok (answer, w'))
        × Step c s op answer s'
        × Refines c w' s'
  unfolding Legal
  call-Refines c w s Spec.reserve r legal = reserve-Refined c w s r legal
  call-Refines c w s (Spec.release t) r legal = release-Refined c w s r t legal
  call-Refines c w s (Spec.cancel t) r legal = cancel-Refined c w s r t
  call-Refines c w s (Spec.set_timeout t time task) r legal =
      set_timeout-Refined c w s r t time task legal
  call-Refines c w s (Spec.move_timeout t when task) r legal =
      move_timeout-Refined c w s r t when task
  call-Refines c w s (Spec.poll time) r legal = poll-Refined c w s r time legal

  -- What a run of calls answers, with any fuel.
  pub data Trace : Wheel Store → List (Op × Option ℕ) → Wheel Store → Type 0 where
    stopped : {w : Wheel Store} → Trace w [] w
    called :
        {op : Op} {answer : Option ℕ} {w w1 w' : Wheel Store} {calls : List (Op × Option ℕ)}
        (fuel : ℕ)
        → Legal w op
        → call fuel op w ≡ ok (answer, w1)
        → Trace w1 calls w'
        → Trace w ((op, answer) ∷ calls) w'

  call-more :
      (fuel more : ℕ) (op : Op) (w : Wheel Store) {r : Option ℕ × Wheel Store}
      → fuel ≤ more
      → call fuel op w ≡ ok r
      → call more op w ≡ ok r
  unfolding call
  call-more fuel more Spec.reserve w le e = e
  call-more fuel more (Spec.release t) w le e = e
  call-more fuel more (Spec.cancel t) w le e = e
  call-more fuel more (Spec.set_timeout t time task) w le e = e
  call-more fuel more (Spec.move_timeout t when task) w le e = e
  call-more fuel more (Spec.poll time) w le e = poll-more fuel more w time le e

  -- Whatever a run of calls answers, the wheel promises: from a wheel in order that holds the timers
  -- of `s`, the same calls with the same answers lead to timers that the wheel holds then.
  pub Trace-Refines :
      (c : Clock) {w w' : Wheel Store} (s : Timers) {calls : List (Op × Option ℕ)}
      → Refines c w s
      → Trace w calls w'
      → (s' : Timers) × Steps c s calls s' × Refines c w' s'
  Trace-Refines c s r stopped = (s, stop, r)
  Trace-Refines c s r (called {op} {answer} {w} {w1} fuel legal e trace) =
      let (a2, w2, s2, enough, returns, promised, r2) = call-Refines c w s op r legal in
      let same : (a2, w2) ≡ (answer, w1) = ok_of (
        sym (returns (fuel + enough) (omega arith))
        ∙ call-more fuel (fuel + enough) op w (omega arith) e) in
      let (s', steps, r') =
        Trace-Refines c s2 (subst (λ (x : Wheel Store). Refines c x s2) (ap (λ x. x.1) same) r2)
          trace in
      (
        s',
        step (subst (λ (a : Option ℕ). Step c s op a s2) (ap (λ x. x.0) same) promised) steps,
        r',
      )

  -- A new wheel promises whatever a run of calls on it answers, where each call is used as it has to
  -- be: the same calls with the same answers are allowed on a table of timers that begins empty, and
  -- lead to the timers that the wheel holds then. The number of slots is not zero and passes the test
  -- for a power of two, and a tick is not empty.
  pub new-Trace-Refines :
      (builder : Builder) (start : ℕ) {w w' : Wheel Store} {calls : List (Op × Option ℕ)}
      → get_num_slots builder ≢ 0
      → bit_and (get_num_slots builder) (get_num_slots builder - 1) ≡ 0
      → 0 < get_tick_duration builder
      → Wheel.new builder start ≡ ok w
      → Trace w calls w'
      → (s' : Timers) × Steps (clock_of builder start) no_timers calls s'
        × Refines (clock_of builder start) w' s'
  new-Trace-Refines builder start {w} {w'} {calls} some_slots power ticking made trace =
      let (w0, e, h, free, current, started, ticking') =
        new-IsWheel builder start some_slots power ticking in
      let k : w0 ≡ w = ok_of (sym e ∙ made) in
      let c = clock_of builder start in
      let r : Refines c w0 no_timers = record {
        chain = λ i. [];
        seen = [];
        rest = [];
        room = 0;
        is_wheel = h;
        fits = λ i. omega arith;
        held = λ t. ap (λ x. known (view x)) (free t);
        current = current;
        start = started;
        tick_ms = ticking';
      } in
      Trace-Refines c no_timers (subst (λ (x : Wheel Store). Refines c x no_timers) k r) trace
