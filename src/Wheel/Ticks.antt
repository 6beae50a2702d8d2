-- ===== src/Wheel/Ticks.antt =====
-- src/wheel.rs: times, ticks and milliseconds.
use easyfibers.Prelude.{
  ℕ, ◌+◌, ◌-◌, ◌*◌, ◌/◌, ◌%◌, ◌^◌, ◌≤◌, ◌<◌, ◌≡◌, refl, ap, ◌∙◌, arith, ltb, if◌then◌else◌, sym,
  Bool-cases, inl, inr, ◌==◌, le→ltb_false, lt→ltb, ne→==_false,
}
use native.Mathlib.Nat.{mul-div_cancel, mul_comm, mul_assoc, div-mul-le_self, lt-div-mul-add}
use easyfibers.Prelude.Outcome.{ok, ok_of}
use easyfibers.Wheel.{Wheel, time_to_ticks, actual_tick, deferred, millis}

-- A duration is converted to milliseconds by rounding up, and what does not fit 64 bits is the
-- largest number of 64 bits. The duration is one that Rust can hold.
pub millis_lem :
    (duration : ℕ)
    → duration < 2 ^ 64 * 1_000_000_000
    → millis duration ≡ (
        if ltb ((duration + 999_999) / 1_000_000) (2 ^ 64)
        then (duration + 999_999) / 1_000_000
        else 2 ^ 64 - 1)
unfolding millis
millis_lem duration h = ground arith

module _ {Store : Type 0} where
  -- Two wheels that began at the same time, with ticks of the same length and as many slots.
  pub record SameSettings (w w' : Wheel Store) : Type 0 where
    pub start : w'.start ≡ w.start
    pub tick_ms : w'.tick_ms ≡ w.tick_ms
    pub mask : w'.mask ≡ w.mask

  pub SameSettings-trans :
      {w w1 w2 : Wheel Store} → SameSettings w w1 → SameSettings w1 w2 → SameSettings w w2
  SameSettings-trans a b = record {
    start = b.start ∙ a.start;
    tick_ms = b.tick_ms ∙ a.tick_ms;
    mask = b.mask ∙ a.mask;
  }

  pub same_ticks :
      {w w' : Wheel Store}
      → SameSettings w w'
      → (time : ℕ) → time_to_ticks w' time ≡ time_to_ticks w time
  unfolding time_to_ticks
  same_ticks same time = rw (same.start, same.tick_ms) refl

module _ {Store : Type 0} (w : Wheel Store) where
  -- From the start on, a time is a number of whole ticks since the start, where its milliseconds fit
  -- 64 bits and a tick is not empty.
  pub time_to_ticks_lem :
      (time : ℕ)
      → w.start ≤ time
      → (time - w.start) / 1_000_000 < 2 ^ 64
      → 0 < w.tick_ms
      → time_to_ticks w time ≡ ok ((time - w.start) / 1_000_000 / w.tick_ms)
  unfolding time_to_ticks
  time_to_ticks_lem time h fits tick =
      let d = time - w.start in
      let whole : d / 1_000_000_000 * 1000 + d % 1_000_000_000 / 1_000_000 ≡ d / 1_000_000 =
        omega arith in
      rw
        (
          le→ltb_false time w.start h,
          lt→ltb (d / 1_000_000_000 * 1000) (2 ^ 64) (omega arith),
          whole,
          lt→ltb (d / 1_000_000) (2 ^ 64) fits,
          ne→==_false w.tick_ms 0 (λ e. omega arith),
        )
        refl

  -- A time that has a tick has this one.
  pub time_to_ticks-ok :
      (time : ℕ) {tick : ℕ}
      → time_to_ticks w time ≡ ok tick
      → tick ≡ (time - w.start) / 1_000_000 / w.tick_ms
  unfolding time_to_ticks
  time_to_ticks-ok time {tick} e =
      let d = time - w.start in
      let whole : d / 1_000_000_000 * 1000 + d % 1_000_000_000 / 1_000_000 ≡ d / 1_000_000 =
        omega arith in
      elim (Bool-cases (ltb time w.start)) [
        | inl early ↦ cc (rw early at e)
        | inr from_start ↦ elim (Bool-cases (ltb (d / 1_000_000_000 * 1000) (2 ^ 64))) [
          | inr over ↦ cc (rw (from_start, over) at e)
          | inl fits ↦ elim (Bool-cases (ltb (d / 1_000_000) (2 ^ 64))) [
            | inr over ↦ cc (rw (from_start, fits, whole, over) at e)
            | inl fits' ↦ elim (Bool-cases (w.tick_ms == 0)) [
              | inl empty ↦ cc (rw (from_start, fits, whole, fits', empty) at e)
              | inr ticking ↦ sym (ok_of (rw (from_start, fits, whole, fits', ticking) at e))
            ]
          ]
        ]
      ]

  -- The instant of a tick is in that tick: a wheel that rounds a time down to a tick and goes back
  -- keeps the tick. The tick fits 32 bits, its milliseconds fit 64, and a tick is not empty.
  pub time_to_ticks-actual_tick :
      (tick : ℕ)
      → tick < 2 ^ 32
      → tick * w.tick_ms < 2 ^ 64
      → 0 < w.tick_ms
      → time_to_ticks w (actual_tick w tick) ≡ ok tick
  unfolding actual_tick
  time_to_ticks-actual_tick tick small fits pos =
      let small_mod : tick % 2 ^ 32 ≡ tick = omega arith in
      let p : w.tick_ms * 1_000_000 * (tick % 2 ^ 32) ≡ tick * w.tick_ms * 1_000_000 =
        rw small_mod (
          omega (
            arith,
            ap (λ (m : ℕ). m * 1_000_000) (mul_comm w.tick_ms tick),
            mul_assoc w.tick_ms 1_000_000 tick,
            mul_assoc w.tick_ms tick 1_000_000,
            ap (λ (m : ℕ). w.tick_ms * m) (mul_comm 1_000_000 tick),
          )) in
      let ms : (actual_tick w tick - w.start) / 1_000_000 ≡ tick * w.tick_ms = omega arith in
      time_to_ticks_lem (actual_tick w tick) (omega arith) (omega arith) pos
      ∙ ap ok (rw (ms, mul-div_cancel tick pos) refl)

  -- A timer that is set for a time goes to the tick of that time, whose instant is at or before the
  -- time and less than a tick before it: times are rounded down. The time is ahead of the wheel's
  -- tick, its milliseconds fit 64 bits, its tick fits 32, and a tick is not empty.
  pub actual_tick-deferred :
      (time : ℕ)
      → w.start ≤ time
      → (time - w.start) / 1_000_000 < 2 ^ 64
      → 0 < w.tick_ms
      → (time - w.start) / 1_000_000 / w.tick_ms < 2 ^ 32
      → w.cur_wheel_tick < (time - w.start) / 1_000_000 / w.tick_ms
      → (tick : ℕ) × (time_to_ticks w time ≡ ok tick)
        × (actual_tick w (deferred tick w.cur_wheel_tick) ≤ time)
        × (time < actual_tick w (deferred tick w.cur_wheel_tick) + w.tick_ms * 1_000_000)
  unfolding actual_tick
  actual_tick-deferred time h fits pos small ahead =
      let ms = (time - w.start) / 1_000_000 in
      let tick = ms / w.tick_ms in
      let kept : deferred tick w.cur_wheel_tick ≡ tick = ground arith in
      let small_mod : tick % 2 ^ 32 ≡ tick = omega arith in
      let low = div-mul-le_self ms w.tick_ms in
      let high = lt-div-mul-add {a = ms} pos in
      let p : w.tick_ms * 1_000_000 * tick ≡ tick * w.tick_ms * 1_000_000 = omega (
        arith,
        mul_assoc w.tick_ms 1_000_000 tick,
        ap (λ (m : ℕ). w.tick_ms * m) (mul_comm 1_000_000 tick),
        mul_assoc w.tick_ms tick 1_000_000,
        ap (λ (m : ℕ). m * 1_000_000) (mul_comm w.tick_ms tick),
      ) in
      (
        tick,
        time_to_ticks_lem time h fits pos,
        rw (kept, small_mod) (omega arith),
        rw (kept, small_mod) (omega arith),
      )
