-- ===== src/Runner/Refused.antt =====
-- src/runner.rs: `new_resolve` where the lookup cannot be started.
use easyfibers.Prelude.{
  ℕ, ◌+◌, ◌-◌, ◌*◌, ◌/◌, ◌%◌, ◌^◌, ◌≤◌, ◌<◌, ◌≡◌, ◌≢◌, refl, sym, ap, ◌∙◌, true, false, List, [],
  ◌∷◌, Option, none, some, length, get_elem?, get_elem?-set_self, get_elem?-set_ne, arith, ◌⊎◌,
  ◌==◌, ==_iff, Bool-cases, inl, inr, ne→==_false, lt→ltb, if◌then◌else◌, ltb,
}
use easyfibers.Prelude.Outcome.{ok}
use easyfibers.Prelude.Slice.{index}
use easyfibers.DnsParser.ByteOrder.{BigEndian}
use easyfibers.Dns.Lookup.{Dns, Names, start_lookup}
use easyfibers.Wheel.Slab.{SlabApi}
use easyfibers.Wheel.Tokens.{has, has-append}
use easyfibers.Wheel.Cancel.Relink.{get_elem?-lt}
use easyfibers.Wheel.Linked.{view, IsWheel}
use easyfibers.Poller
use easyfibers.Poller.{PollerInt}
use easyfibers.Poller.Timers.{Armed, full, armed, target, timer_reg-Armed}
use easyfibers.Fiber.Net.{ErrorKind, failed, NetApi}
use easyfibers.Fiber.Sock.{no_socket}
use easyfibers.Fiber.Int.{FiberInt, Registry, SocketType}
use easyfibers.Runner.{World, fiber_at, modify, timer_reg, cancel_timer}
use easyfibers.Runner.Children.{is_some}
use easyfibers.Runner.Places.{IsRunner, placed}
use easyfibers.Runner.Registered.{changed, modify_lem, register-Registered}
use easyfibers.Runner.Timers.{cancelled, IsRunner-set, idle_lem, cancel_timer-Removed}
use easyfibers.Runner.Resolve.{resolve_ticks, take_back, looked_up, resolve_at, new_resolve}

-- The timeout of a lookup is at least one tick of 250 ms and no more than 255, and the ticks of the
-- duration where these are between the two. Its milliseconds fit 64 bits.
pub resolve_ticks-bounds :
    (to : ℕ)
    → to / 1_000_000 < 2 ^ 64
    → (ticks : ℕ) × (resolve_ticks to ≡ ok ticks)
      × (1 ≤ ticks)
      × (ticks ≤ 255)
      × (1 ≤ to / 250_000_000 → to / 250_000_000 ≤ 255 → ticks ≡ to / 250_000_000)
unfolding resolve_ticks
resolve_ticks-bounds to fits =
    let whole : to / 1_000_000_000 * 1000 + to % 1_000_000_000 / 1_000_000 ≡ to / 1_000_000 =
      omega arith in
    let ticks =
      if to / 1_000_000 / 250 == 0
      then 1
      else if ltb 255 (to / 1_000_000 / 250)
      then 255
      else to / 1_000_000 / 250 in
    (
      ticks,
      rw
          (
            lt→ltb (to / 1_000_000_000 * 1000) (2 ^ 64) (omega arith),
            whole,
            lt→ltb (to / 1_000_000) (2 ^ 64) fits,
          )
          refl,
      ground arith,
      ground arith,
      λ low high. ground arith,
    )

module _ ⦃net : NetApi⦄ {Store P R Func : Type 0} where
  -- The fiber at a place that is not free, in a runner in order whose other fibers are as in `fibers`.
  record At (fibers : List (FiberInt P R Func)) (w : World Store P R Func) (pos : ℕ)
      (f : FiberInt P R Func) : Type 0 where
    order : IsRunner w.runner
    here : get_elem? w.runner.fibers pos ≡ some f
    taken : has pos w.runner.free_fibers ≡ false
    others : (i : ℕ) → i ≢ pos → get_elem? w.runner.fibers i ≡ get_elem? fibers i

  At-changed :
      {fibers : List (FiberInt P R Func)} {w : World Store P R Func} {pos : ℕ}
      {f : FiberInt P R Func} (g : FiberInt P R Func)
      → At fibers w pos f
      → g.me ≡ f.me
      → At fibers (changed w pos g) pos g
  At-changed {fibers} {w} {pos} {f} g at same = record {
    order = IsRunner-set w.runner pos f g at.order at.here same;
    here = get_elem?-set_self w.runner.fibers pos g (get_elem?-lt w.runner.fibers pos f at.here);
    taken = at.taken;
    others = λ i ne. get_elem?-set_ne w.runner.fibers g (λ k. ne (sym k)) ∙ at.others i ne;
  }

module _ ⦃net : NetApi⦄ ⦃be : BigEndian⦄ ⦃registry : Registry⦄ ⦃names : Names⦄
    {Store P R Func : Type 0} ⦃api : SlabApi Store⦄ where
  -- A runner and a wheel in order where the fiber that was refused had the place `pos`, which was
  -- free or is new, and the token `tk`, the answer of `timer_reg` at `now`: the place is free again
  -- if there was a token and taken if there was none, no timer is new and none is lost, and the other
  -- fibers are as they were.
  pub record Cleared (w : World Store P R Func) (now pos : ℕ) (tk : Option ℕ)
      (w' : World Store P R Func) : Type 0 where
    pub vacant : (has pos w.runner.free_fibers ≡ true) ⊎ (pos ≡ length w.runner.fibers)
    pub asked :
        (p : PollerInt Store) × (Poller.timer_reg w.poller
            (Poller.fiber_id w.runner.pos pos)
            none
            now
          ≡ ok (tk, p))
    pub order : IsRunner w'.runner
    pub freed : has pos w'.runner.free_fibers ≡ is_some tk
    pub others : (i : ℕ) → i ≢ pos → get_elem? w'.runner.fibers i ≡ get_elem? w.runner.fibers i
    pub chain : ℕ → List ℕ
    pub seen : List ℕ
    pub rest : List ℕ
    pub is_wheel : IsWheel w'.poller.wheel chain seen rest
    pub views :
        (a : ℕ) → view (api.get w'.poller.wheel.slab a) ≡ view (api.get w.poller.wheel.slab a)

  take_back_lem :
      (w w' : World Store P R Func) (pos : ℕ) (f : FiberInt P R Func)
      → get_elem? w.runner.fibers pos ≡ some f
      → get_elem? (changed w pos (record f { param = none })).runner.fibers pos
        ≡ some (record f { param = none })
      → f.parent ≡ none
      → cancel_timer (changed w pos (record f { param = none })) pos ≡ ok w'
      → take_back w pos ≡ ok w'
  unfolding take_back fiber_at index
  take_back_lem w w' pos f at at' orphan e =
      rw (modify_lem w pos f (λ f. record f { param = none }) at, at', orphan, e) refl

  resolve_lem :
      (dns : Dns) (w : World Store P R Func) (pos : ℕ) (domain : List ℕ) (to : ℕ) (st : SocketType)
      (port now : ℕ) (p : PollerInt Store) (tk : Option ℕ) (ticks : ℕ) (e : ErrorKind)
      (w2 w3 w' : World Store P R Func)
      → Poller.timer_reg w.poller (Poller.fiber_id w.runner.pos pos) none now ≡ ok (tk, p)
      → (modify (record w { poller = p }) pos λ f. record f { wtoken = tk }) ≡ ok w2
      → resolve_ticks to ≡ ok ticks
      → (modify w2 pos λ f. record f { timed_out = ticks }) ≡ ok w3
      → start_lookup dns domain ≡ ok (failed e)
      → take_back w3 pos ≡ ok w'
      → resolve_at dns w pos domain to st port now ≡ ok (failed e, w')
  unfolding resolve_at timer_reg looked_up
  resolve_lem dns w pos domain to st port now p tk ticks e w2 w3 w' e1 e2 e3 e4 e5 e6 =
      rw (e1, e2, e3, e4, e5, e6) refl

  -- The end: the timer, if there is one, is taken out.
  Armed-Cleared :
      (w w1 : World Store P R Func) (now pos : ℕ) (tk : Option ℕ) (f : FiberInt P R Func)
      {chain : ℕ → List ℕ} {rest : List ℕ} {at_time id : ℕ}
      → (has pos w.runner.free_fibers ≡ true) ⊎ (pos ≡ length w.runner.fibers)
      → ((p : PollerInt Store) × (Poller.timer_reg w.poller
              (Poller.fiber_id w.runner.pos pos)
              none
              now
            ≡ ok (tk, p)))
      → At w.runner.fibers w1 pos f
      → f.wtoken ≡ tk
      → Armed w.poller.wheel chain rest at_time id tk w1.poller.wheel
      → (w' : World Store P R Func) × (cancel_timer w1 pos ≡ ok w') × Cleared w now pos tk w'
  Armed-Cleared w w1 now pos tk f vacant asked at token (full h views) = (
    w1,
    idle_lem w1 pos f at.here token,
    record {
      vacant = vacant;
      asked = asked;
      order = at.order;
      freed = at.taken;
      others = at.others;
      chain = _;
      seen = _;
      rest = _;
      is_wheel = h;
      views = views;
    },
  )
  Armed-Cleared w w1 now pos tk f vacant asked at token (armed {token = t} fresh h views) =
      let (slots, slab, cursor, e, removed, order, _) =
        cancel_timer-Removed w1 h at.order pos t f at.here token at.taken in
      (
        _,
        e,
        record {
          vacant = vacant;
          asked = asked;
          order = order;
          freed =
              has-append pos w1.runner.free_fibers (pos ∷ [])
              ∙ rw (at.taken, (==_iff pos pos).1 refl) refl;
          others = λ i ne.
              get_elem?-set_ne w1.runner.fibers (cancelled f) (λ k. ne (sym k)) ∙ at.others i ne;
          chain = _;
          seen = _;
          rest = _;
          is_wheel = removed.is_wheel;
          views = λ a. removed.views a ∙ elim (Bool-cases (a == t)) [
            | inl same ↦
                rw same
                  (sym (ap view (ap (api.get w.poller.wheel.slab) ((==_iff a t).0 same) ∙ fresh)))
            | inr other ↦ rw other (views a ∙ rw other refl)
          ];
        },
      )

  -- A lookup for a fiber without a parent that cannot be started is an error of `new_resolve`, the one
  -- of the lookup, and never a panic. No timer is left and none is lost, the other fibers are as they
  -- were, and the runner and the wheel stay in order. The place of the fiber, which was free or is
  -- new, is free again if `timer_reg` answered a token for it, and stays taken if it answered none.
  -- The domain is not empty, the milliseconds of the timeout fit 64 bits, the runner has a queue, and
  -- the conditions on the slab and on the deadline, 250 ms from now, are those of `timer_reg`.
  pub new_resolve-Cleared :
      (dns : Dns) (w : World Store P R Func) {chain : ℕ → List ℕ} {seen rest : List ℕ}
      (h : IsWheel w.poller.wheel chain seen rest) (r : IsRunner w.runner) (domain : List ℕ)
      (func : Option Func) (to : ℕ) (st : SocketType) (port : ℕ) (param : P) (now : ℕ) (q : List ℕ)
      (e : ErrorKind)
      → 0 < length domain
      → get_elem? w.poller.toexec_fibers w.runner.pos ≡ some q
      → start_lookup dns domain ≡ ok (failed e)
      → to / 1_000_000 < 2 ^ 64
      → (api.has_vacant w.poller.wheel.slab ≡ true)
        ⊎ (api.len w.poller.wheel.slab ≤ w.poller.wheel.max_capacity)
      → w.poller.wheel.start ≤ now + 250_000_000
      → (now + 250_000_000 - w.poller.wheel.start) / 1_000_000 < 2 ^ 64
      → target w.poller.wheel (now + 250_000_000) < 2 ^ 32
      → target w.poller.wheel (now + 250_000_000) * w.poller.wheel.tick_ms < 2 ^ 64
      → (pos : ℕ) × (tk : Option ℕ) × (w' : World Store P R Func) × (new_resolve dns w none domain
            func to st port param now
          ≡ ok (failed e, w'))
        × Cleared w now pos tk w'
  unfolding new_resolve
  new_resolve-Cleared dns w h r domain func to st port param now q e some_domain at_queue refused
        fits room from_start fits' small fits_ms =
      let (pos, fibers, free, e1, g) =
        register-Registered w r func no_socket (some param) false q refl at_queue in
      let f = placed w.runner func no_socket (some param) pos g.gen in
      let w1 = record w { runner = record w.runner { fibers = fibers; free_fibers = free } } in
      let at : At w.runner.fibers w1 pos f = record {
        order = g.order;
        here = g.here;
        taken = g.taken;
        others = g.others;
      } in
      let (tk, wheel, e2, a) =
        timer_reg-Armed w.poller h (Poller.fiber_id w.runner.pos pos) none now room from_start fits'
          small fits_ms in
      let w2 = record w1 { poller = record w.poller { wheel = wheel } } in
      let (ticks, e3, _, _, _) = resolve_ticks-bounds to fits in
      let f2 = record f { wtoken = tk } in
      let f3 = record f2 { timed_out = ticks } in
      let f4 = record f3 { param = none } in
      let at1 : At w.runner.fibers w2 pos f = record {
        order = g.order;
        here = g.here;
        taken = g.taken;
        others = g.others;
      } in
      let at2 = At-changed f2 at1 refl in
      let at3 = At-changed f3 at2 refl in
      let at4 = At-changed f4 at3 refl in
      let (w', ended, cleared) = Armed-Cleared w _ now pos tk f4 g.vacant (_, e2) at4 refl a in
      (
        pos,
        tk,
        w',
        rw (ne→==_false (length domain) 0 (λ k. omega arith), e1)
            (resolve_lem dns w1 pos domain to st port now _ tk ticks e _ _ w' e2
              (modify_lem w2 pos f (λ f. record f { wtoken = tk }) at1.here) e3
              (modify_lem (changed w2 pos f2) pos f2 (λ f. record f { timed_out = ticks }) at2.here)
              refused (take_back_lem _ w' pos f3 at3.here at4.here refl ended)),
        cleared,
      )
