-- ===== src/Runner/Loop.antt =====
-- src/runner.rs: `run`, the three queues of the poller in turn. The fuel of a loop bounds what it
-- takes from its queue, and the parents that a fiber leads to.
use easyfibers.Prelude.{ℕ, zero, suc, ◌-◌, none, some, Bool, ◌==◌, ltb, if◌then◌else◌, replicate}
use easyfibers.Prelude.Outcome.{Outcome, ok, err, panic, stuck, ◌>>=◌}
use easyfibers.Prelude.Slice.{slice}
use easyfibers.DnsParser.ByteOrder.{BigEndian}
use easyfibers.Dns.{IpAddr, dns_parse}
use easyfibers.Dns.Resolver.{lookup_on}
use easyfibers.Dns.Lookup.{Dns, Names}
use easyfibers.Wheel.{Run}
use easyfibers.Wheel.Slab.{SlabApi}
use easyfibers.Poller
use easyfibers.Fiber.Net.{done, failed, NetApi}
use easyfibers.Fiber.Sock
use easyfibers.Fiber.Sock.{FiberSock, tcp, udp, listener, tls, tls_temp, no_socket}
use easyfibers.Fiber.Int.{FiberInt, Registry, ConnectParam}
use easyfibers.Runner.{
  World, Switch, fiber_at, modify, pop_toexec, timer_reg, timer_cancel, signaled,
}
use easyfibers.Runner.Children.{is_some}
use easyfibers.Runner.Steps.{step_into, have_addr}

-- `let _ =`
abbrev dropped : {E A : Type 0} → Outcome E A → Run (Unit {0})
dropped (ok _) = ok tt
dropped (err _) = ok tt
dropped panic = panic
dropped stuck = stuck

-- A call that returns no `Result`.
abbrev plain : {E A : Type 0} → Outcome E A → Run A
plain (ok a) = ok a
plain (err _) = panic
plain panic = panic
plain stuck = stuck

module _ ⦃net : NetApi⦄ ⦃be : BigEndian⦄ ⦃registry : Registry⦄ ⦃names : Names⦄
    {Store P R Func : Type 0} ⦃api : SlabApi Store⦄ ⦃switch : Switch Store P R Func⦄ (dns : Dns)
    (default_stack : ℕ) (depth : ℕ) where
  -- The timer of a fiber, if there is one, is cancelled.
  unfoldable pub disarm : World Store P R Func → ℕ → Run (World Store P R Func)
  disarm w pos = do
    f ← fiber_at w pos
    w ← elim f.wtoken [ none ↦ ok w | some tk ↦ timer_cancel w tk ]
    modify w pos λ f. record f { wtoken = none }

  -- A fiber that waits for its address reads the answer of the name server.
  unfoldable pub read_answer : World Store P R Func → ℕ → Run (World Store P R Func)
  read_answer w pos = do
    f ← fiber_at w pos
    let (res, buf, sock) = Sock.read f.sock (replicate 512 0)
    w ← modify w pos λ f. record f { sock = sock }
    elim res [
      | failed _ ↦ ok w
      | done nb ↦ do
        answer ← slice buf 0 nb
        adr ← plain (dns_parse answer)
        elim adr [
          | none ↦ ok w
          | some adr ↦ do w ← disarm w pos; have_addr default_stack depth w pos adr
        ]
    ]

  unfoldable pub execute : World Store P R Func → ℕ → Run (World Store P R Func)
  execute w pos = do
    f ← fiber_at w pos
    if is_some f.connect_param then read_answer w pos else step_into default_stack depth w pos

  unfoldable pub run_toexec : ℕ → World Store P R Func → Run (World Store P R Func)
  run_toexec zero w = stuck
  run_toexec (suc fuel) w = do
    (pos, w) ← pop_toexec w
    elim pos [ none ↦ ok w | some pos ↦ do w ← execute w pos; run_toexec fuel w ]

  -- A result for another generation of the fiber is passed over.
  unfoldable pub found : World Store P R Func → ℕ → ℕ → IpAddr → Run (World Store P R Func)
  found w pos gen addr = do
    f ← fiber_at w pos
    if f.generation == gen
        then (do w ← disarm w pos; have_addr default_stack depth w pos addr)
        else ok w

  unfoldable pub run_lookups : ℕ → World Store P R Func → Run (World Store P R Func)
  run_lookups zero w = stuck
  run_lookups (suc fuel) w = do
    (x, p) ← Poller.dns_check w.poller w.runner.pos
    let w = record w { poller = p }
    elim x [ none ↦ ok w | some (pos, gen, addr) ↦ do w ← found w pos gen addr; run_lookups fuel w ]

  -- The query is sent again, where the fiber has a socket for it, and its timer is set again.
  abbrev again :
      World Store P R Func
      → ℕ
      → FiberInt P R Func
      → FiberSock net
      → ConnectParam
      → ℕ
      → Run (World Store P R Func)
  again w pos f (udp s) cp now = do
    _ ← dropped (lookup_on dns.srvs f.timed_out (names.send s) names.ids cp.host)
    (tk, w) ← timer_reg w (Poller.fiber_id w.runner.pos pos) none now
    modify w pos λ f. record f { wtoken = tk }
  again w pos f (tcp _) cp now = ok w
  again w pos f (listener _) cp now = ok w
  again w pos f (tls _) cp now = ok w
  again w pos f (tls_temp _) cp now = ok w
  again w pos f no_socket cp now = ok w

  -- One tick less for the lookup of the address: `-=` on an u8 panics at 0.
  unfoldable pub tick_down :
      World Store P R Func → ℕ → ConnectParam → ℕ → Run (World Store P R Func)
  tick_down w pos cp now = do
    f ← fiber_at w pos
    if f.timed_out == 0 then panic else (do
      w ← modify w pos λ f. record f { timed_out = f.timed_out - 1 }
      f ← fiber_at w pos
      if ltb 0 f.timed_out then again w pos f f.sock cp now else (do
        w ← modify w pos λ f. record f { sock = no_socket; wtoken = none }
        step_into default_stack depth w pos))

  -- The timer of a fiber fired, unless it was cancelled since.
  unfoldable pub expire : World Store P R Func → ℕ → ℕ → Run (World Store P R Func)
  expire w pos now = do
    f ← fiber_at w pos
    elim f.wtoken [
      | none ↦ ok w
      | some _ ↦ elim f.connect_param [
        | some cp ↦ tick_down w pos cp now
        | none ↦ do
          w ← modify w pos λ f. record f { wtoken = none; timed_out = 1 }
          step_into default_stack depth w pos
      ]
    ]

  unfoldable pub run_timeouts : ℕ → World Store P R Func → ℕ → Run (World Store P R Func)
  run_timeouts zero w now = stuck
  run_timeouts (suc fuel) w now = do
    (pos, p) ← Poller.timedout_pop w.poller w.runner.pos
    let w = record w { poller = p }
    elim pos [ none ↦ ok w | some pos ↦ do w ← expire w pos now; run_timeouts fuel w now ]

  -- `now` is the time of the timers that are set again.
  unfoldable pub run : ℕ → World Store P R Func → ℕ → Run (Bool × World Store P R Func)
  run fuel w now = do
    w ← run_toexec fuel w
    w ← run_lookups fuel w
    w ← run_timeouts fuel w now
    ok (signaled w, w)
