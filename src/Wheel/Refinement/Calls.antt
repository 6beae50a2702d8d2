-- ===== src/Wheel/Refinement/Calls.antt =====
-- src/wheel.rs: `reserve`, `release`, `cancel` and `set_timeout`, against what the wheel promises.
use easyfibers.Prelude.{
  ℕ, suc, ◌-◌, ◌/◌, ◌%◌, ◌^◌, ◌≤◌, ◌≡◌, refl, sym, ap, ◌∙◌, List, Option, none, some, length, arith,
  ◌==◌, if◌then◌else◌, Bool-cases, inl, inr,
}
use easyfibers.Prelude.Outcome.{ok}
use easyfibers.Wheel
use easyfibers.Wheel.{Wheel, Run, time_to_ticks, actual_tick}
use easyfibers.Wheel.Slab.{SlabApi}
use easyfibers.Wheel.Tokens.{erased, length-erase}
use easyfibers.Wheel.Ticks.{SameSettings}
use easyfibers.Wheel.Linked.{coming_tick, Timer, view, IsWheel}
use easyfibers.Wheel.Cancel.Cancelled.{cancel-Removed, release-IsWheel}
use easyfibers.Wheel.Insert.Heads.{pushed}
use easyfibers.Wheel.Insert.Inserted.{set_timeout-Inserted}
use easyfibers.Wheel.Reserve.{Reserved}
use easyfibers.Wheel.Fresh.{reserve-IsWheel}
use easyfibers.Wheel.Spec
use easyfibers.Wheel.Spec.{
  Op, Held, Timers, Clock, Step, Steps, no_timers, clock_of, stop, step, tick_of, instant, update,
  retask,
}
use easyfibers.Wheel.Refinement.{known, call, Legal, Refines, Refined}

module _ {Store : Type 0} ⦃api : SlabApi Store⦄ where
  module _ (c : Clock) (w : Wheel Store) (s : Timers) (r : Refines c w s) where
    pub same_tick : (time : ℕ) → (time - w.start) / 1_000_000 / w.tick_ms ≡ tick_of c time
    same_tick time = rw (r.start, r.tick_ms) refl

    -- The wheel after a call, with the same clock.
    pub still :
        (w' : Wheel Store) (s' : Timers) {chain : ℕ → List ℕ} {seen rest : List ℕ} (room : ℕ)
        → IsWheel w' chain seen rest
        → SameSettings w w'
        → ((i : ℕ) → length (chain i) ≤ room)
        → w'.cur_wheel_tick ≡ s'.current
        → ((t : ℕ) → known (view (api.get w'.slab t)) ≡ s'.held t)
        → Refines c w' s'
    still w' s' {chain} {seen} {rest} room h clock fits current held = record {
      chain = chain;
      seen = seen;
      rest = rest;
      room = room;
      is_wheel = h;
      fits = fits;
      held = held;
      current = current;
      start = clock.start ∙ r.start;
      tick_ms = clock.tick_ms ∙ r.tick_ms;
    }

    -- A new entry of one token, as it is known.
    pub held-update :
        (slab : Store) (t : ℕ) (x : Option (Option Timer)) (y : Held)
        → known x ≡ y
        → ((a : ℕ) → view (api.get slab a) ≡ (if a == t then x else view (api.get w.slab a)))
        → (a : ℕ) → known (view (api.get slab a)) ≡ (if a == t then y else s.held a)
    held-update slab t x y k views a = elim (Bool-cases (a == t)) [
      | inl same ↦ rw same (ap known (views a ∙ rw same refl) ∙ k)
      | inr other ↦ rw other (ap known (views a ∙ rw other refl) ∙ r.held a)
    ]

    pub erased-fits : (t i : ℕ) → length (erased r.chain t i) ≤ r.room
    erased-fits t i = omega (arith, length-erase t (r.chain i), r.fits i)

    pushed-fits : (idx t i : ℕ) → length (pushed r.chain idx t i) ≤ suc r.room
    pushed-fits idx t i = ground (arith, r.fits i)

    pub reserve-Refined : Legal w Spec.reserve → Refined c w s Spec.reserve
    unfolding call Legal
    reserve-Refined legal =
        let (answer, slab, e, res, h') = reserve-IsWheel w r.is_wheel legal in
        go answer slab e res h'
      where
        go :
            (answer : Option ℕ) (slab : Store)
            → Wheel.reserve w ≡ ok (answer, record w { slab = slab })
            → Reserved w.slab answer slab
            → IsWheel (record w { slab = slab }) r.chain r.seen r.rest
            → Refined c w s Spec.reserve
        go none slab e same h' = (
          none,
          record w { slab = slab },
          s,
          0,
          λ fuel le. e,
          Spec.full,
          still _ s r.room h' (record { start = refl; tick_ms = refl; mask = refl }) r.fits
              r.current (λ a. ap (λ x. known (view x)) (same a) ∙ r.held a),
        )
        go (some t) slab e (fresh, below, same) h' = (
          some t,
          record w { slab = slab },
          update s t (some none),
          0,
          λ fuel le. e,
          Spec.reserved (sym (r.held t) ∙ ap (λ x. known (view x)) fresh),
          still _ (update s t (some none)) r.room h'
              (record { start = refl; tick_ms = refl; mask = refl }) r.fits r.current
              (held-update slab t (some none) (some none) refl (λ a.
                ap view (same a)
                ∙ elim (Bool-cases (a == t)) [ inl k ↦ rw k refl | inr k ↦ rw k refl ])),
        )

    -- A token whose entry is taken out.
    gone :
        (w' : Wheel Store) (t : ℕ) {seen rest : List ℕ}
        → IsWheel w' (erased r.chain t) seen rest
        → SameSettings w w'
        → w'.cur_wheel_tick ≡ w.cur_wheel_tick
        → ((a : ℕ) → view (api.get w'.slab a) ≡ (if a == t then none else view (api.get w.slab a)))
        → Refines c w' (update s t none)
    gone w' t h clock same views =
        still w' (update s t none) r.room h clock (erased-fits t) (same ∙ r.current)
          (held-update w'.slab t none none refl views)

    pub release-Refined : (t : ℕ) → Legal w (Spec.release t) → Refined c w s (Spec.release t)
    unfolding call Legal Wheel.release
    release-Refined t legal = (
      none,
      Wheel.release w t,
      update s t none,
      0,
      λ fuel le. refl,
      Spec.released,
      gone (Wheel.release w t) t (release-IsWheel w r.is_wheel t legal)
          (record { start = refl; tick_ms = refl; mask = refl }) refl
          (λ a.
            ap view (api.get-remove w.slab t a)
            ∙ elim (Bool-cases (a == t)) [ inl k ↦ rw k refl | inr k ↦ rw k refl ]),
    )

    pub cancel-Refined : (t : ℕ) → Refined c w s (Spec.cancel t)
    unfolding call
    cancel-Refined t =
        let (slots, slab, cursor, e, h) = cancel-Removed w r.is_wheel t in
        (
          none,
          record w { wheel = slots; slab = slab; cur_slab_idx = cursor },
          update s t none,
          0,
          λ fuel le. rw e refl,
          Spec.cancelled,
          gone _ t h.is_wheel (record { start = refl; tick_ms = refl; mask = refl }) refl h.views,
        )

    pub set_timeout-Refined :
        (t time task : ℕ)
        → Legal w (Spec.set_timeout t time task)
        → Refined c w s (Spec.set_timeout t time task)
    unfolding call Legal actual_tick
    set_timeout-Refined t time task (vacant, from_start, fits, small, fits') =
        let (slots, slab, e, h) =
          set_timeout-Inserted w r.is_wheel t time task vacant from_start fits small fits' in
        let w' = record w { wheel = slots; slab = slab } in
        let tick = coming_tick (tick_of c time) s.current in
        let same : coming_tick ((time - w.start) / 1_000_000 / w.tick_ms) w.cur_wheel_tick ≡ tick =
          rw (same_tick time, r.current) refl in
        let whole : tick % 2 ^ 32 ≡ tick = omega (arith, small, same) in
        let s' = update s t (some (some (task, instant c tick))) in
        (
          none,
          w',
          s',
          0,
          λ fuel le. rw e refl,
          Spec.set (sym (r.held t) ∙ ap (λ x. known (view x)) vacant),
          still w' s' (suc r.room) h.is_wheel (record { start = refl; tick_ms = refl; mask = refl })
              (pushed-fits _ t) r.current
              (held-update slab t _ _ (rw (same, whole, r.start, r.tick_ms) refl) h.views),
        )
