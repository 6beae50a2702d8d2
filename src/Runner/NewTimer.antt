-- ===== src/Runner/NewTimer.antt =====
-- src/runner.rs: `new_timer`, from the place to the wheel.
use easyfibers.Prelude.{
  ℕ, ◌+◌, ◌-◌, ◌*◌, ◌/◌, ◌^◌, ◌≤◌, ◌<◌, ◌≡◌, refl, ap, ◌∙◌, true, false, List, Option, none, some,
  set, get_elem?, get_elem?-set_self, ◌⊎◌,
}
use easyfibers.Prelude.Outcome.{ok}
use easyfibers.Wheel.Slab.{SlabApi}
use easyfibers.Wheel.Tokens.{has}
use easyfibers.Wheel.Cancel.Relink.{get_elem?-lt}
use easyfibers.Wheel.Linked.{IsWheel}
use easyfibers.Poller
use easyfibers.Poller.{PollerInt}
use easyfibers.Poller.Timers.{Armed, target, timer_reg-Armed}
use easyfibers.Fiber.Net.{done, NetApi}
use easyfibers.Fiber.Sock.{no_socket}
use easyfibers.Fiber.Int.{FiberInt, Registry}
use easyfibers.Runner.{World, modify, timer_reg, register, new_timer}
use easyfibers.Runner.Places.{IsRunner, placed}
use easyfibers.Runner.Registered.{modify_lem, register-Registered}
use easyfibers.Runner.Timers.{IsRunner-set}

-- The reference to the timer, where there is a token.
abbrev pub answer : Option ℕ → ℕ → Option ℕ
answer none pos = none
answer (some _) pos = some pos

module _ ⦃net : NetApi⦄ ⦃registry : Registry⦄ {Store P R Func : Type 0} ⦃api : SlabApi Store⦄ where
  new_timer_lem :
      (w w1 w2 : World Store P R Func) (p : PollerInt Store) (func : Option Func) (dur : ℕ)
      (param : Option P) (resp : Option R) (now pos : ℕ) (tk : Option ℕ) (f : FiberInt P R Func)
      → register w func no_socket param none false ≡ ok (done pos, w1)
      → (modify w1 pos λ f. record f { result = resp }) ≡ ok w2
      → Poller.timer_reg w2.poller (Poller.fiber_id w2.runner.pos pos) (some dur) now ≡ ok (tk, p)
      → get_elem? w2.runner.fibers pos ≡ some f
      → f.wtoken ≡ none
      → (fibers : List (FiberInt P R Func)) × (new_timer w func dur param resp now
          ≡ ok (
            answer tk pos,
            record w2 { poller = p; runner = record w2.runner { fibers = fibers } },
          ))
        × (get_elem? fibers pos ≡ some (record f { wtoken = tk }))
        × (IsRunner w2.runner → IsRunner (record w2.runner { fibers = fibers }))
  unfolding new_timer timer_reg
  new_timer_lem w w1 w2 p func dur param resp now pos none f e1 e2 e3 at_pos token = (
    w2.runner.fibers,
    rw (e1, e2, e3) refl,
    at_pos ∙ ap (λ (t : Option ℕ). some (record f { wtoken = t })) token,
    λ r. r,
  )
  new_timer_lem w w1 w2 p func dur param resp now pos (some tk) f e1 e2 e3 at_pos token =
      let g = record f { wtoken = some tk } in
      (
        set w2.runner.fibers pos g,
        rw
            (
              e1,
              e2,
              e3,
              modify_lem (record w2 { poller = p }) pos f (λ f. record f { wtoken = some tk })
                  at_pos,
            )
            refl,
        get_elem?-set_self w2.runner.fibers pos g (get_elem?-lt w2.runner.fibers pos f at_pos),
        λ r. IsRunner-set w2.runner pos f g r at_pos refl,
      )

  -- `new_timer` never panics on a runner and a wheel that are in order, and keeps the runner in
  -- order. The fiber has a place that is not free any more, with the response as its result. If there
  -- is a token, the fiber has it, the place is answered, and the wheel has the timer with the id of
  -- the fiber, at the instant of the tick of `now + dur`, which is rounded down, or of the tick after
  -- the current one where that tick is not ahead; if there is none, nothing is answered and the wheel has what it had,
  -- but the place stays taken. The runner has a queue, and the conditions on the slab and on the
  -- deadline are those of `timer_reg`.
  pub new_timer-Armed :
      (w : World Store P R Func) {chain : ℕ → List ℕ} {seen rest : List ℕ}
      (h : IsWheel w.poller.wheel chain seen rest) (r : IsRunner w.runner) (func : Option Func)
      (dur : ℕ) (param : Option P) (resp : Option R) (now : ℕ) (q : List ℕ)
      → get_elem? w.poller.toexec_fibers w.runner.pos ≡ some q
      → (api.has_vacant w.poller.wheel.slab ≡ true)
        ⊎ (api.len w.poller.wheel.slab ≤ w.poller.wheel.max_capacity)
      → w.poller.wheel.start ≤ now + dur
      → (now + dur - w.poller.wheel.start) / 1_000_000 < 2 ^ 64
      → target w.poller.wheel (now + dur) < 2 ^ 32
      → target w.poller.wheel (now + dur) * w.poller.wheel.tick_ms < 2 ^ 64
      → (pos : ℕ) × (tk : Option ℕ) × (w' : World Store P R Func) × (gen : ℕ) × (new_timer w func
            dur param resp now
          ≡ ok (answer tk pos, w'))
        × IsRunner w'.runner
        × (has pos w'.runner.free_fibers ≡ false)
        × (get_elem? w'.runner.fibers pos
            ≡ some (record (placed w.runner func no_socket param pos gen) {
              result = resp;
              wtoken = tk;
            }))
        × Armed w.poller.wheel chain rest
            (now + dur)
            (Poller.fiber_id w.runner.pos pos)
            tk
            w'.poller.wheel
  new_timer-Armed w h r func dur param resp now q at_queue room from_start fits small fits' =
      let (pos, fibers, free, e1, g) =
        register-Registered w r func no_socket param false q refl at_queue in
      let f = placed w.runner func no_socket param pos g.gen in
      let w1 = record w { runner = record w.runner { fibers = fibers; free_fibers = free } } in
      let f2 = record f { result = resp } in
      let e2 = modify_lem w1 pos f (λ f. record f { result = resp }) g.here in
      let w2 = record w1 { runner = record w1.runner { fibers = set fibers pos f2 } } in
      let at_pos = get_elem?-set_self fibers pos f2 (get_elem?-lt fibers pos f g.here) in
      let (tk, wheel, e3, a) =
        timer_reg-Armed w.poller h (Poller.fiber_id w.runner.pos pos) (some dur) now room from_start
          fits small fits' in
      let (fibers', e, here, keep) =
        new_timer_lem w w1 w2 (record w.poller { wheel = wheel }) func dur param resp now pos tk f2
          e1 e2 e3 at_pos refl in
      (
        pos,
        tk,
        _,
        g.gen,
        e,
        keep (IsRunner-set w1.runner pos f f2 g.order g.here refl),
        g.taken,
        here,
        a,
      )
