-- ===== src/Wheel/Poll/Fuel.antt =====
-- src/wheel.rs: what `poll` answers does not hang on the fuel.
use easyfibers.Prelude.{
  ℕ, zero, suc, ◌≤◌, ◌≡◌, Option, none, some, arith, ◌==◌, leb, Bool-cases, inl, inr,
}
use easyfibers.Prelude.Outcome.{ok, bind-ok}
use easyfibers.Wheel.{Wheel, Run, time_to_ticks}
use easyfibers.Wheel.Slab.{empty, SlabApi}
use easyfibers.Wheel.Poll.{advance, visit, poll_loop, poll}

module _ {Store : Type 0} ⦃api : SlabApi Store⦄ where
  visited :
      {go go' : Wheel Store → Run (Option ℕ × Wheel Store)} {r : Option ℕ × Wheel Store}
      (done : Option (Option ℕ)) (w : Wheel Store)
      → ((w' : Wheel Store) → go w' ≡ ok r → go' w' ≡ ok r)
      → elim done [ some task ↦ ok (task, w) | none ↦ go w ] ≡ ok r
      → elim done [ some task ↦ ok (task, w) | none ↦ go' w ] ≡ ok r
  visited (some task) w again e = e
  visited none w again e = again w e

  -- A loop that ends with some fuel ends the same way with more.
  poll_loop-more :
      (fuel more : ℕ) (w : Wheel Store) (now at_time : ℕ) {r : Option ℕ × Wheel Store}
      → fuel ≤ more
      → poll_loop fuel w now at_time ≡ ok r
      → poll_loop more w now at_time ≡ ok r
  unfolding poll_loop
  poll_loop-more zero zero w now at_time le e = e
  poll_loop-more zero (suc more) w now at_time le e = elim (Bool-cases (leb w.cur_wheel_tick now)) [
    | inl on ↦ cc
    | inr over ↦ rw over (rw over at e)
  ]
  poll_loop-more (suc fuel) zero w now at_time le e = absurd (omega arith)
  poll_loop-more (suc fuel) (suc more) w now at_time le e =
      elim (Bool-cases (leb w.cur_wheel_tick now)) [
        | inr over ↦ rw over (rw over at e)
        | inl on ↦ elim (Bool-cases (w.cur_slab_idx == empty)) [
          | inl at_end ↦
              let (w1, e1, rest) = bind-ok (advance w) _ _ (rw (on, at_end) at e) in
              rw (on, at_end, e1) (poll_loop-more fuel more w1 now at_time (omega arith) rest)
          | inr entry ↦
              let ((done, w1), e1, rest) = bind-ok (visit w at_time) _ _ (rw (on, entry) at e) in
              rw (on, entry, e1)
                (visited done w1 (λ w2 e2. poll_loop-more fuel more w2 now at_time (omega arith) e2)
                  rest)
        ]
      ]

  pub poll-more :
      (fuel more : ℕ) (w : Wheel Store) (at_time : ℕ) {r : Option ℕ × Wheel Store}
      → fuel ≤ more
      → poll fuel w at_time ≡ ok r
      → poll more w at_time ≡ ok r
  unfolding poll
  poll-more fuel more w at_time le e =
      let (now, e1, rest) = bind-ok (time_to_ticks w at_time) _ _ e in
      rw e1 (poll_loop-more fuel more w now at_time le rest)
