-- ===== src/Runner/Resolve.antt =====
-- src/runner.rs: `new_resolve`, which starts a lookup and leaves a fiber that waits for it.
use easyfibers.Prelude.{
  ℕ, ◌+◌, ◌*◌, ◌/◌, ◌%◌, List, [], ◌∷◌, Option, none, some, false, ◌==◌, ltb, if◌then◌else◌, length,
}
use easyfibers.Prelude.Outcome.{Outcome, ok, err, panic, stuck, ◌>>=◌}
use easyfibers.DnsParser.Error.{Error}
use easyfibers.DnsParser.ByteOrder.{BigEndian}
use easyfibers.Dns.Lookup.{Dns, Names, start_lookup}
use easyfibers.Wheel.{Run, checked}
use easyfibers.Wheel.Slab.{SlabApi}
use easyfibers.Poller
use easyfibers.Poller.{tick_ms}
use easyfibers.Fiber.Net.{other, IoResult, done, failed, NetApi}
use easyfibers.Fiber.Sock.{udp, no_socket}
use easyfibers.Fiber.Int.{Registry, SocketType, readable}
use easyfibers.Runner.{World, fiber_at, modify, timer_reg, register, cancel_timer}
use easyfibers.Runner.Socket.{register_for}

-- The timeout in ticks of the poller: at least one, and no more than a byte holds.
abbrev clamp : ℕ → ℕ
clamp ticks = if ticks == 0 then 1 else if ltb 255 ticks then 255 else ticks

-- The milliseconds of a duration are u64 numbers, and overflow panics.
unfoldable pub resolve_ticks : ℕ → Run ℕ
resolve_ticks to = do
  ms ← checked (to / 1_000_000_000 * 1000)
  ms ← checked (ms + to % 1_000_000_000 / 1_000_000)
  ok (clamp (ms / tick_ms))

-- `children.pop_back()`
abbrev pub pop_back : {A : Type 0} → List A → List A
pop_back [] = []
pop_back (x ∷ []) = []
pop_back (x ∷ y ∷ xs) = x ∷ pop_back (y ∷ xs)

-- `start_lookup` answers an `io::Result`, and no error of the parser.
abbrev pub io_only : {A : Type 0} → Outcome Error A → Run A
io_only (ok a) = ok a
io_only (err _) = panic
io_only panic = panic
io_only stuck = stuck

module _ ⦃net : NetApi⦄ ⦃be : BigEndian⦄ ⦃registry : Registry⦄ ⦃names : Names⦄
    {Store P R Func : Type 0} ⦃api : SlabApi Store⦄ where
  -- The lookup could not be started: the fiber is taken back.
  unfoldable pub take_back : World Store P R Func → ℕ → Run (World Store P R Func)
  take_back w pos = do
    w ← modify w pos λ f. record f { param = none }
    f ← fiber_at w pos
    w ← elim f.parent [
      | none ↦ ok w
      | some parent ↦ do
        w ← modify w parent λ f. record f { children = pop_back f.children }
        modify w pos λ f. record f { parent = none }
    ]
    cancel_timer w pos

  -- What `start_lookup` answered.
  unfoldable pub looked_up :
      World Store P R Func
      → ℕ
      → ℕ
      → SocketType
      → List ℕ
      → IoResult (Option net.Udp)
      → Run (IoResult ℕ × World Store P R Func)
  looked_up w pos port st domain (failed e) = do w ← take_back w pos; ok (failed e, w)
  looked_up w pos port st domain (done none) = do
    w ←
        modify w pos
          λ f. record f { connect_param = some (record { port = port; st = st; host = [] }) }
    ok (done pos, w)
  looked_up w pos port st domain (done (some sock)) = do
    w ← modify w pos λ f. record f {
      connect_param = some (record { port = port; st = st; host = domain });
      sock = udp sock;
    }
    (res, w) ← register_for w pos readable
    elim res [ failed e ↦ ok (failed e, w) | done _ ↦ ok (done pos, w) ]

  -- The fiber `pos` is given its timer and its timeout, and the lookup starts.
  unfoldable pub resolve_at :
      Dns
      → World Store P R Func
      → ℕ
      → List ℕ
      → ℕ
      → SocketType
      → ℕ
      → ℕ
      → Run (IoResult ℕ × World Store P R Func)
  resolve_at dns w pos domain to st port now = do
    (tk, w) ← timer_reg w (Poller.fiber_id w.runner.pos pos) none now
    w ← modify w pos λ f. record f { wtoken = tk }
    ticks ← resolve_ticks to
    w ← modify w pos λ f. record f { timed_out = ticks }
    res ← io_only (start_lookup dns domain)
    looked_up w pos port st domain res

  -- `domain` is a text, `to` the timeout, and `now` the time of the timer.
  unfoldable pub new_resolve :
      Dns
      → World Store P R Func
      → Option ℕ
      → List ℕ
      → Option Func
      → ℕ
      → SocketType
      → ℕ
      → P
      → ℕ
      → Run (IoResult ℕ × World Store P R Func)
  new_resolve dns w parent domain func to st port param now =
      if length domain == 0 then ok (failed other, w) else (do
        (res, w) ← register w func no_socket (some param) parent false
        elim res [
          | failed e ↦ ok (failed e, w)
          | done pos ↦ resolve_at dns w pos domain to st port now
        ])
