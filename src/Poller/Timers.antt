-- ===== src/Poller/Timers.antt =====
-- src/poller.rs: `timer_reg`, from a token to the timer.
use easyfibers.Prelude.{
  ℕ, ◌-◌, ◌*◌, ◌/◌, ◌^◌, ◌≤◌, ◌<◌, ◌≡◌, refl, ap, ◌∙◌, true, List, Option, none, some, ◌==◌, ==_iff,
  if◌then◌else◌, Bool-cases, ◌⊎◌, inl, inr,
}
use easyfibers.Prelude.Outcome.{ok}
use easyfibers.Wheel.{Wheel, actual_tick, ticks_to_wheel_idx, reserve}
use easyfibers.Wheel.Slab.{SlabApi}
use easyfibers.Wheel.Linked.{coming_tick, view, IsWheel}
use easyfibers.Wheel.Insert.{set_timeout}
use easyfibers.Wheel.Insert.Heads.{pushed}
use easyfibers.Wheel.Insert.Inserted.{set_timeout-Inserted}
use easyfibers.Wheel.Reserve.{Reserved}
use easyfibers.Wheel.Fresh.{reserve-IsWheel}
use easyfibers.Poller.{PollerInt, deadline, timer_reg}

module _ {Store : Type 0} ⦃api : SlabApi Store⦄ where
  -- The tick that a timer for a time goes to.
  abbrev pub target : Wheel Store → ℕ → ℕ
  target w at_time = coming_tick ((at_time - w.start) / 1_000_000 / w.tick_ms) w.cur_wheel_tick

  -- What `timer_reg` leaves of the wheel `w` that holds the tokens `chain`. There is no token, and
  -- the timers are the same; or the token had no entry, and has the timer of `id` now, while every
  -- other token has what it had.
  pub data Armed (w : Wheel Store) (chain : ℕ → List ℕ) (rest : List ℕ) (at_time id : ℕ)
      : Option ℕ → Wheel Store → Type 0 where
    full :
        {w' : Wheel Store} {seen : List ℕ}
        → IsWheel w' chain seen rest
        → ((a : ℕ) → view (api.get w'.slab a) ≡ view (api.get w.slab a))
        → Armed w chain rest at_time id none w'
    armed :
        {w' : Wheel Store} {seen : List ℕ} {token : ℕ}
        → api.get w.slab token ≡ none
        → IsWheel w' (pushed chain (ticks_to_wheel_idx w (target w at_time)) token) seen rest
        → ((a : ℕ)
            → view (api.get w'.slab a) ≡ (
                if a == token
                then some (
                    some (
                      id,
                      actual_tick w (target w at_time),
                      ticks_to_wheel_idx w (target w at_time),
                    ))
                else view (api.get w.slab a)))
        → Armed w chain rest at_time id (some token) w'

  module _ (p : PollerInt Store) {chain : ℕ → List ℕ} {seen rest : List ℕ}
      (h : IsWheel p.wheel chain seen rest) (id : ℕ) (dur : Option ℕ) (now : ℕ) where
    abbrev Arms : Type 0
    Arms =
        (tk : Option ℕ) × (w' : Wheel Store) × (timer_reg p id dur now
          ≡ ok (tk, record p { wheel = w' }))
        × Armed p.wheel chain rest (deadline dur now) id tk w'

    unreserved :
        (slab : Store)
        → reserve p.wheel ≡ ok (none, record p.wheel { slab = slab })
        → Reserved p.wheel.slab none slab
        → IsWheel (record p.wheel { slab = slab }) chain seen rest
        → Arms
    unfolding timer_reg
    unreserved slab e same h' =
        (none, record p.wheel { slab = slab }, rw e refl, full h' (λ a. ap view (same a)))

    set_lem :
        (w1 w2 : Wheel Store) (token : ℕ)
        → reserve p.wheel ≡ ok (some token, w1)
        → set_timeout w1 token (deadline dur now) id ≡ ok w2
        → timer_reg p id dur now ≡ ok (some token, record p { wheel = w2 })
    unfolding timer_reg
    set_lem w1 w2 token e e' = rw (e, e') refl

    -- `timer_reg` never panics on a wheel that is in order, and keeps it in order. The token that it
    -- answers had no entry and has the timer of the id from then on, at the instant of the tick of
    -- the deadline, or of the next tick; every other token has what it had. Without a token nothing
    -- is changed. The slab has room or may grow; the deadline is not before the start, its
    -- milliseconds fit 64 bits, and its tick fits 32 bits and the tick's milliseconds 64.
    pub timer_reg-Armed :
        (api.has_vacant p.wheel.slab ≡ true) ⊎ (api.len p.wheel.slab ≤ p.wheel.max_capacity)
        → p.wheel.start ≤ deadline dur now
        → (deadline dur now - p.wheel.start) / 1_000_000 < 2 ^ 64
        → target p.wheel (deadline dur now) < 2 ^ 32
        → target p.wheel (deadline dur now) * p.wheel.tick_ms < 2 ^ 64
        → (tk : Option ℕ) × (w' : Wheel Store) × (timer_reg p id dur now
            ≡ ok (tk, record p { wheel = w' }))
          × Armed p.wheel chain rest (deadline dur now) id tk w'
    unfolding ticks_to_wheel_idx actual_tick
    timer_reg-Armed room from_start fits small fits' =
        let (answer, slab, e, r, h') = reserve-IsWheel p.wheel h room in go answer slab e r h'
      where
        go :
            (answer : Option ℕ) (slab : Store)
            → reserve p.wheel ≡ ok (answer, record p.wheel { slab = slab })
            → Reserved p.wheel.slab answer slab
            → IsWheel (record p.wheel { slab = slab }) chain seen rest
            → Arms
        go none slab e r h' = unreserved slab e r h'
        go (some token) slab e (fresh, below, same) h' =
            let w1 = record p.wheel { slab = slab } in
            let vacant = same token ∙ rw ((==_iff token token).1 refl) refl in
            let (slots, slab2, e', i) =
              set_timeout-Inserted w1 h' token (deadline dur now) id vacant from_start fits small
                fits' in
            (
              some token,
              record w1 { wheel = slots; slab = slab2 },
              set_lem w1 _ token e e',
              armed fresh i.is_wheel λ a. i.views a ∙ elim (Bool-cases (a == token)) [
                | inl mine ↦ rw mine refl
                | inr other ↦ rw other (ap view (same a ∙ rw other refl))
              ],
            )
