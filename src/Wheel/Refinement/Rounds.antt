-- ===== src/Wheel/Refinement/Rounds.antt =====
-- src/wheel.rs: `move_timeout` and `poll`, against what the wheel promises.
use easyfibers.Prelude.{
  ℕ, ◌+◌, ◌-◌, ◌/◌, ◌≡◌, refl, sym, ap, ◌∙◌, Bool, true, false, Option, none, some, length, arith,
  ◌==◌, ==_iff, if◌then◌else◌, Bool-cases, inl, inr,
}
use easyfibers.Wheel.{Wheel}
use easyfibers.Wheel.Slab.{Timeout, Entry, reserved, timeout, SlabApi}
use easyfibers.Wheel.Ticks.{SameSettings, time_to_ticks-ok}
use easyfibers.Wheel.Linked.{Timer, view}
use easyfibers.Wheel.Insert
use easyfibers.Wheel.Insert.Moved.{retasked, move_timeout-Moved}
use easyfibers.Wheel.Poll.Polled.{Polled, idle, due, ahead, rounds, poll-Polled}
use easyfibers.Wheel.Poll.Fuel.{poll-more}
use easyfibers.Wheel.Spec
use easyfibers.Wheel.Spec.{
  Op, Held, Timers, Clock, Step, Steps, no_timers, clock_of, stop, step, tick_of, instant, update,
  retask,
}
use easyfibers.Wheel.Refinement.{known, call, Legal, Refines, Refined}
use easyfibers.Wheel.Refinement.Calls.{same_tick, still, held-update, erased-fits}

known-retasked :
    (when task : ℕ) (o : Option (Option Timer))
    → known (retasked when task o) ≡ retask when task (known o)
known-retasked when task none = refl
known-retasked when task (some none) = refl
known-retasked when task (some (some (old, time, idx))) = elim (Bool-cases (time == when)) [
  | inl same ↦ rw same refl
  | inr other ↦ rw other refl
]

-- A token that has a timer of which the slot is forgotten has one with a slot.
known-timer :
    (o : Option (Option Timer)) (task when : ℕ)
    → known o ≡ some (some (task, when))
    → (idx : ℕ) × (o ≡ some (some (task, when, idx)))
known-timer none task when e = cc
known-timer (some none) task when e = cc
known-timer (some (some (a, b, idx))) task when e = (
  idx,
  ap
      (λ (x : Held). elim x [
        | none ↦ none
        | some none ↦ some none
        | some (some (c, d)) ↦ some (some (c, d, idx))
      ])
      e,
)

module _ {Store : Type 0} ⦃api : SlabApi Store⦄ where
  module _ (c : Clock) (w : Wheel Store) (s : Timers) (r : Refines c w s) where
    SameTime : Wheel Store → Type 0
    SameTime w' = SameSettings w w' × (w'.cur_wheel_tick ≡ w.cur_wheel_tick)

    moved_clock : (t when task : ℕ) → SameTime (Insert.move_timeout w t when task)
    unfolding Insert.move_timeout SameTime
    moved_clock t when task = go (api.get w.slab t)
      where
        same_time :
            (e : Timeout) (b : Bool)
            → SameTime (
                if b
                then record w { slab = api.put w.slab t (timeout (record e { task = task })) }
                else w)
        same_time e true = (record { start = refl; tick_ms = refl; mask = refl }, refl)
        same_time e false = (record { start = refl; tick_ms = refl; mask = refl }, refl)

        go :
            (o : Option Entry)
            → SameTime (elim o [
              | none ↦ w
              | some reserved ↦ w
              | some (timeout e) ↦
                  if e.when == when
                  then record w { slab = api.put w.slab t (timeout (record e { task = task })) }
                  else w
            ])
        go none = (record { start = refl; tick_ms = refl; mask = refl }, refl)
        go (some reserved) = (record { start = refl; tick_ms = refl; mask = refl }, refl)
        go (some (timeout e)) = same_time e (e.when == when)

    pub move_timeout-Refined : (t when task : ℕ) → Refined c w s (Spec.move_timeout t when task)
    unfolding call SameTime
    move_timeout-Refined t when task =
        let (h, views) = move_timeout-Moved w t when task r.is_wheel in
        let (clock, same) = moved_clock t when task in
        (
          none,
          Insert.move_timeout w t when task,
          update s t (retask when task (s.held t)),
          0,
          λ fuel le. refl,
          Spec.moved,
          still c w s r _ _ r.room h clock r.fits (same ∙ r.current) (
              held-update c w s r (Insert.move_timeout w t when task).slab t
                (retasked when task (view (api.get w.slab t))) _
                (known-retasked when task (view (api.get w.slab t))
                  ∙ ap (retask when task) (r.held t))
                (λ a. views a ∙ elim (Bool-cases (a == t)) [
                  | inl k ↦ rw k (
                      ap (λ (x : ℕ). retasked when task (view (api.get w.slab x)))
                        ((==_iff a t).0 k))
                  | inr k ↦ rw k refl
                ])),
        )

    pub poll-Refined : (time : ℕ) → Legal w (Spec.poll time) → Refined c w s (Spec.poll time)
    unfolding call Legal
    poll-Refined time (from_start, fits) =
        let now = (time - w.start) / 1_000_000 / w.tick_ms in
        let enough = rounds now w.cur_wheel_tick r.room + length r.rest in
        let (o, w', e, p) =
          poll-Polled w r.is_wheel time r.room enough from_start fits r.fits (omega arith) in
        let (s', promised, r') = go p in
        (o, w', s', enough, λ fuel le. poll-more enough fuel w time le e, promised, r')
      where
        go :
            {o : Option ℕ} {w' : Wheel Store}
            → Polled w r.chain ((time - w.start) / 1_000_000 / w.tick_ms) o w'
            → (s' : Timers) × Step c s (Spec.poll time) o s' × Refines c w' s'
        go (idle h over views none_due clock) = (
          _,
          Spec.idle (λ t task when e.
              let (idx, e') = known-timer (view (api.get w.slab t)) task when (r.held t ∙ e) in
              let (tick, ticks, later) = none_due t task when idx e' in
              omega (
                arith,
                time_to_ticks-ok w when ticks,
                same_tick c w s r when,
                same_tick c w s r time,
              )),
          still c w s r _ (record s { current = ahead (tick_of c time) s.current }) r.room h clock
              r.fits (over ∙ rw (same_tick c w s r time, r.current) refl)
              (λ a. ap known (views a) ∙ r.held a),
        )
        go {w'} (due t task when idx tick e ticks early h views clock on at) = (
          _,
          Spec.fired (sym (r.held t) ∙ ap known e)
              (omega (
                arith,
                time_to_ticks-ok w when ticks,
                same_tick c w s r when,
                same_tick c w s r time,
              ))
              (omega (arith, r.current, on)) (omega (arith, same_tick c w s r time, at)),
          still c w s r w' (record (update s t none) { current = w'.cur_wheel_tick }) r.room h clock
              (erased-fits c w s r t) refl (held-update c w s r w'.slab t none none refl views),
        )
