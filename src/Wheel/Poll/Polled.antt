-- ===== src/Wheel/Poll/Polled.antt =====
-- src/wheel.rs: `poll` ends, and fires the timers that are due.
use easyfibers.Prelude.{
  ℕ, zero, suc, ◌+◌, ◌-◌, ◌*◌, ◌/◌, ◌^◌, ◌≤◌, ◌<◌, ◌≡◌, ◌≢◌, refl, sym, ap, ◌∙◌, true, false, List,
  [], ◌∷◌, Option, none, some, length, arith, ◌==◌, ==_iff, if◌then◌else◌, Bool-cases, inl, inr,
  leb, ne→==_false,
}
use native.Mathlib.Nat.{suc-mul}
use easyfibers.Prelude.Outcome.{ok}
use easyfibers.Wheel.{Slot, Wheel, time_to_ticks, ticks_to_wheel_idx}
use easyfibers.Wheel.Slab.{empty, Timeout, timeout, SlabApi}
use easyfibers.Wheel.Tokens.{erased}
use easyfibers.Wheel.Linked.{view, front_of, IsWheel}
use easyfibers.Wheel.Ticks.{SameSettings, SameSettings-trans, same_ticks, time_to_ticks_lem}
use easyfibers.Wheel.Poll.{advance, visit, poll_loop, poll}
use easyfibers.Wheel.Poll.Advanced.{resting-timer, advance-IsWheel}
use easyfibers.Wheel.Poll.Visited.{Visited, fired, passed, visit-Visited}

-- The rounds left for the ticks up to `now`, where a slot has at most `room` entries.
abbrev pub rounds : ℕ → ℕ → ℕ → ℕ
rounds now cur room = (suc now - cur) * suc room

-- The tick that a wheel is at once it is polled to the end of the tick `now`.
abbrev pub ahead : ℕ → ℕ → ℕ
ahead now cur = if leb cur now then now + 1 else cur

rounds-suc :
    (now cur room : ℕ) → cur ≤ now → rounds now cur room ≡ suc room + rounds now (cur + 1) room
rounds-suc now cur room le =
    let e : suc now - cur ≡ suc (now - cur) = omega arith in
    let e' : suc now - (cur + 1) ≡ now - cur = omega arith in
    rw (e, e') (suc-mul (now - cur) (suc room) ∙ omega arith)

module _ {Store : Type 0} ⦃api : SlabApi Store⦄ where
  -- What `poll` leaves of the wheel `w` that held the tokens `chain`, and is polled at the tick
  -- `now`: nothing is due any more, and every timer is there; or a timer that was due is taken out,
  -- and its task is answered.
  pub data Polled (w : Wheel Store) (chain : ℕ → List ℕ) (now : ℕ)
      : Option ℕ → Wheel Store → Type 0 where
    idle :
        {w' : Wheel Store} {seen rest : List ℕ}
        → IsWheel w' chain seen rest
        → w'.cur_wheel_tick ≡ ahead now w.cur_wheel_tick
        → ((a : ℕ) → view (api.get w'.slab a) ≡ view (api.get w.slab a))
        → ((a task when idx : ℕ)
            → view (api.get w.slab a) ≡ some (some (task, when, idx))
            → (tick : ℕ) × (time_to_ticks w when ≡ ok tick) × (now < tick))
        → SameSettings w w'
        → Polled w chain now none w'
    due :
        {w' : Wheel Store} {seen rest : List ℕ} (t task when idx tick : ℕ)
        → view (api.get w.slab t) ≡ some (some (task, when, idx))
        → time_to_ticks w when ≡ ok tick
        → tick ≤ now
        → IsWheel w' (erased chain t) seen rest
        → ((a : ℕ) → view (api.get w'.slab a) ≡ (if a == t then none else view (api.get w.slab a)))
        → SameSettings w w'
        → w.cur_wheel_tick ≤ w'.cur_wheel_tick
        → w'.cur_wheel_tick ≤ now
        → Polled w chain now (some task) w'

  over_lem :
      (fuel : ℕ) (w : Wheel Store) (now at_time : ℕ)
      → now < w.cur_wheel_tick
      → poll_loop fuel w now at_time ≡ ok (none, w)
  unfolding poll_loop
  over_lem zero w now at_time over = ground arith
  over_lem (suc fuel) w now at_time over = ground arith

  advance_step :
      (fuel : ℕ) (w w1 : Wheel Store) (now at_time : ℕ)
      → w.cur_wheel_tick ≤ now
      → w.cur_slab_idx ≡ empty
      → advance w ≡ ok w1
      → poll_loop (suc fuel) w now at_time ≡ poll_loop fuel w1 now at_time
  unfolding poll_loop
  advance_step fuel w w1 now at_time le at_end e =
      let b : leb w.cur_wheel_tick now ≡ true = ground arith in
      rw (b, (==_iff w.cur_slab_idx empty).1 at_end, e) refl

  visit_step :
      (fuel : ℕ) (w w1 : Wheel Store) (o : Option (Option ℕ)) (now at_time : ℕ)
      → w.cur_wheel_tick ≤ now
      → w.cur_slab_idx ≢ empty
      → visit w at_time ≡ ok (o, w1)
      → poll_loop (suc fuel) w now at_time
        ≡ elim o [ some task ↦ ok (task, w1) | none ↦ poll_loop fuel w1 now at_time ]
  unfolding poll_loop
  visit_step fuel w w1 o now at_time le ne e =
      let b : leb w.cur_wheel_tick now ≡ true = ground arith in
      rw (b, ne→==_false w.cur_slab_idx empty ne, e) refl

  -- A step that changes no timer.
  Polled-step :
      {w w1 w' : Wheel Store} {chain : ℕ → List ℕ} {now : ℕ} {o : Option ℕ}
      → w.cur_wheel_tick ≤ now
      → w.cur_wheel_tick ≤ w1.cur_wheel_tick
      → w1.cur_wheel_tick ≤ now + 1
      → ((a : ℕ) → view (api.get w1.slab a) ≡ view (api.get w.slab a))
      → SameSettings w w1
      → Polled w1 chain now o w'
      → Polled w chain now o w'
  Polled-step le on bound views clock (idle h over same none_due clock') =
      idle h (over ∙ ground arith) (λ a. same a ∙ views a)
        (λ a task when idx e.
          let (tick, ticks, lt) = none_due a task when idx (views a ∙ e) in
          (tick, sym (same_ticks clock when) ∙ ticks, lt))
        (SameSettings-trans clock clock')
  Polled-step le on bound views clock
        (due t task when idx tick e ticks early h same clock' on' at) =
      due t task when idx tick (sym (views t) ∙ e) (sym (same_ticks clock when) ∙ ticks) early h
        (λ a. same a ∙ ap (λ o. if a == t then none else o) (views a))
        (SameSettings-trans clock clock') (omega arith) at

  -- The loop returns, with what `poll` is to leave.
  abbrev pub Returns : ℕ → Wheel Store → (ℕ → List ℕ) → ℕ → ℕ → Type 0
  Returns fuel w chain now at_time =
      (o : Option ℕ) × (w' : Wheel Store) × (poll_loop fuel w now at_time ≡ ok (o, w'))
      × Polled w chain now o w'

  -- The wheel is ahead of the tick already.
  over-Returns :
      (fuel : ℕ) (w : Wheel Store) {chain : ℕ → List ℕ} {seen rest : List ℕ} (now at_time : ℕ)
      → IsWheel w chain seen rest
      → leb w.cur_wheel_tick now ≡ false
      → Returns fuel w chain now at_time
  over-Returns fuel w now at_time h over =
      let lt : now < w.cur_wheel_tick = ground arith in
      (
        none,
        w,
        over_lem fuel w now at_time lt,
        idle h (ground arith) (λ a. refl)
            (λ a task when idx e.
              let (tick, ticks, _, _, le, _) = h.timers a task when idx e in
              (tick, ticks, omega arith))
            (record { start = refl; tick_ms = refl; mask = refl }),
      )

  -- The slot is done, and the loop goes on with the next tick.
  advance-Returns :
      (fuel : ℕ) (w w1 : Wheel Store) {chain : ℕ → List ℕ} (now at_time : ℕ)
      → w.cur_wheel_tick ≤ now
      → w.cur_slab_idx ≡ empty
      → advance w ≡ ok w1
      → w1.cur_wheel_tick ≡ w.cur_wheel_tick + 1
      → ((a : ℕ) → view (api.get w1.slab a) ≡ view (api.get w.slab a))
      → SameSettings w w1
      → Returns fuel w1 chain now at_time
      → Returns (suc fuel) w chain now at_time
  advance-Returns fuel w w1 now at_time le at_end e next views clock (o, w', done, p) = (
    o,
    w',
    advance_step fuel w w1 now at_time le at_end e ∙ done,
    Polled-step le (omega arith) (omega arith) views clock p,
  )

  -- An entry was visited: it fires, or the loop goes on behind it.
  visit-Returns :
      (fuel : ℕ) (w : Wheel Store) {chain : ℕ → List ℕ} (t : ℕ) (ts : List ℕ) (v : Timeout)
      (now at_time tick : ℕ) {o : Option (Option ℕ)} {w1 : Wheel Store}
      → w.cur_wheel_tick ≤ now
      → w.cur_slab_idx ≢ empty
      → api.get w.slab t ≡ some (timeout v)
      → time_to_ticks w v.when ≡ ok tick
      → visit w at_time ≡ ok (o, w1)
      → Visited w chain t ts v now tick o w1
      → ((slots : List Slot) (seen' : List ℕ)
          → IsWheel (record w { wheel = slots; cur_slab_idx = front_of ts }) chain seen' ts
          → Returns fuel (record w { wheel = slots; cur_slab_idx = front_of ts }) chain now at_time)
      → Returns (suc fuel) w chain now at_time
  unfolding time_to_ticks
  visit-Returns fuel w t ts v now at_time tick le ne at_t ticks e (fired early h views clock cur)
        again =
      (
        some v.task,
        _,
        visit_step fuel w _ _ now at_time le ne e,
        due t v.task v.when v.wheel_idx tick (ap view at_t) ticks early h views clock (omega arith)
            (omega arith),
      )
  visit-Returns fuel w t ts v now at_time tick le ne at_t ticks e (passed late h) again =
      let (o, w', done, p) = again _ _ h in
      (
        o,
        w',
        visit_step fuel w _ _ now at_time le ne e ∙ done,
        Polled-step le (omega arith) (omega arith) (λ a. refl)
            (record { start = refl; tick_ms = refl; mask = refl }) p,
      )

  poll_loop-Returns :
      (fuel : ℕ) (w : Wheel Store) {chain : ℕ → List ℕ} {seen : List ℕ} (rest : List ℕ)
      (now at_time room : ℕ)
      → IsWheel w chain seen rest
      → time_to_ticks w at_time ≡ ok now
      → ((i : ℕ) → length (chain i) ≤ room)
      → rounds now w.cur_wheel_tick room + length rest ≤ fuel
      → Returns fuel w chain now at_time
  unfolding time_to_ticks
  poll_loop-Returns zero w rest now at_time room h clock fits enough =
      elim (Bool-cases (leb w.cur_wheel_tick now)) [
        | inr over ↦ over-Returns zero w now at_time h over
        | inl go ↦
            let le : w.cur_wheel_tick ≤ now = ground arith in
            absurd (omega (arith, rounds-suc now w.cur_wheel_tick room le))
      ]
  poll_loop-Returns (suc fuel) w [] now at_time room h clock fits enough =
      elim (Bool-cases (leb w.cur_wheel_tick now)) [
        | inr over ↦ over-Returns (suc fuel) w now at_time h over
        | inl go ↦
            let le : w.cur_wheel_tick ≤ now = ground arith in
            let (slots, e, h') = advance-IsWheel w h h.cursor in
            advance-Returns fuel w _ now at_time le h.cursor e refl (λ a. refl)
              (record { start = refl; tick_ms = refl; mask = refl })
              (poll_loop-Returns fuel _ _ now at_time room h' clock fits (
                omega (
                  arith,
                  rounds-suc now w.cur_wheel_tick room le,
                  fits (ticks_to_wheel_idx w (w.cur_wheel_tick + 1)),
                )))
      ]
  poll_loop-Returns (suc fuel) w (t ∷ ts) now at_time room h clock fits enough =
      elim (Bool-cases (leb w.cur_wheel_tick now)) [
        | inr over ↦ over-Returns (suc fuel) w now at_time h over
        | inl go ↦
            let le : w.cur_wheel_tick ≤ now = ground arith in
            let (v, at_t, _) = resting-timer w h t (rw ((==_iff t t).1 refl) refl) in
            let (tick, ticks, _, _, _, _) = h.timers t v.task v.when v.wheel_idx (ap view at_t) in
            let ne : w.cur_slab_idx ≢ empty =
              λ k. cc (ap (λ (x : ℕ). api.get w.slab x) (sym h.cursor ∙ k), h.unused) in
            let (o, w1, e, vis) = visit-Visited w t h v at_t at_time tick now ticks clock le in
            visit-Returns fuel w t ts v now at_time tick le ne at_t ticks e vis (λ slots seen' h'.
              poll_loop-Returns fuel _ ts now at_time room h' clock fits (omega arith))
      ]

  -- `poll` ends on a wheel that is in order, and never panics. It answers the task of a timer that is
  -- due, which is taken out while no other timer is touched; or nothing, where every timer is still
  -- there, none is due, and the wheel is ahead of the tick of the time. The wheel stays in order. It
  -- goes at most as many rounds as the ticks it is behind times one more than what the fullest slot
  -- holds, and those left of the slot that it is in. The time is not before the start, and its
  -- milliseconds fit 64 bits.
  pub poll-Polled :
      (w : Wheel Store) {chain : ℕ → List ℕ} {seen rest : List ℕ} (h : IsWheel w chain seen rest)
      (at_time room fuel : ℕ)
      → w.start ≤ at_time
      → (at_time - w.start) / 1_000_000 < 2 ^ 64
      → ((i : ℕ) → length (chain i) ≤ room)
      → rounds ((at_time - w.start) / 1_000_000 / w.tick_ms) w.cur_wheel_tick room + length rest
        ≤ fuel
      → (o : Option ℕ) × (w' : Wheel Store) × (poll fuel w at_time ≡ ok (o, w'))
        × Polled w chain ((at_time - w.start) / 1_000_000 / w.tick_ms) o w'
  unfolding poll
  poll-Polled w {rest} h at_time room fuel from_start fits_ms fits enough =
      let now = (at_time - w.start) / 1_000_000 / w.tick_ms in
      let clock = time_to_ticks_lem w at_time from_start fits_ms h.ticking in
      let (o, w', e, p) = poll_loop-Returns fuel w rest now at_time room h clock fits enough in
      (o, w', rw clock e, p)
