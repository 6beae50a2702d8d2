-- ===== src/Runner/Waits.antt =====
-- src/runner.rs: `accept_tcp`, and the calls in which a fiber waits for its parent or the main stack.
use easyfibers.Prelude.{ℕ, zero, suc, [], ◌∷◌, ◌++◌, Option, none, some, if◌then◌else◌}
use easyfibers.Prelude.Outcome.{ok, stuck, ◌>>=◌}
use easyfibers.Dns.{IpAddr}
use easyfibers.Wheel.{Run}
use easyfibers.Fiber.Net.{
  would_block, interrupted, not_connected, timed_out, invalid_input, other, unnamed, IoResult, done,
  failed, NetApi,
}
use easyfibers.Fiber.Sock
use easyfibers.Fiber.Sock.{FiberSock}
use easyfibers.Fiber.Int.{Registry, readable, unstacked}
use easyfibers.Runner.{World, Switch, fiber_at, modify}
use easyfibers.Runner.Socket.{is_readable, register_for, step_out}

module _ ⦃net : NetApi⦄ {Store P R Func : Type 0} ⦃switch : Switch Store P R Func⦄ where
  unfoldable pub accept_tcp :
      ℕ → World Store P R Func → ℕ → Run (IoResult (net.Tcp × IpAddr × ℕ) × World Store P R Func)
  accept_tcp zero w pos = stuck
  accept_tcp (suc fuel) w pos = do
    f ← fiber_at w pos
    let (res, sock) = Sock.accept_tcp f.sock
    w ← modify w pos λ f. record f { sock = sock }
    let again = λ (w : World Store P R Func). accept_tcp fuel w pos
    elim res [
      | done r ↦ ok (done r, w)
      | failed would_block ↦ do w ← step_out w pos; again w
      | failed interrupted ↦ again w
      | failed not_connected ↦ ok (failed not_connected, w)
      | failed timed_out ↦ ok (failed timed_out, w)
      | failed invalid_input ↦ ok (failed invalid_input, w)
      | failed other ↦ ok (failed other, w)
      | failed (unnamed n) ↦ ok (failed (unnamed n), w)
    ]

  unfoldable pub resp_chunk : World Store P R Func → ℕ → R → Run (World Store P R Func)
  resp_chunk w pos chunk = do w ← modify w pos λ f. record f { result = some chunk }; step_out w pos

  abbrev pub push_tomain : World Store P R Func → ℕ → World Store P R Func
  push_tomain w pos = record w {
    runner = record w.runner { tomain_fibers = w.runner.tomain_fibers ++ (pos ∷ []) };
  }

  unfoldable pub join_main : World Store P R Func → ℕ → Run (Option R × World Store P R Func)
  join_main w pos = do
    w ← step_out (push_tomain w pos) pos
    f ← fiber_at w pos
    w ← modify w pos λ f. record f { result = none }
    ok (f.result, w)

  unfoldable pub hibernate_join_main : World Store P R Func → ℕ → Run (World Store P R Func)
  hibernate_join_main w pos = do
    w ← modify w pos λ f. record f { state = unstacked }
    step_out (push_tomain w pos) pos

  unfoldable pub hibernate_for_read :
      ⦃registry : Registry⦄
      → World Store P R Func
      → ℕ
      → Run (IoResult (Unit {0}) × World Store P R Func)
  hibernate_for_read w pos = do
    w ← modify w pos λ f. record f { state = unstacked }
    f ← fiber_at w pos
    (res, w) ← if is_readable f.ready then ok (done tt, w) else register_for w pos readable
    elim res [ failed kind ↦ ok (failed kind, w) | done _ ↦ do w ← step_out w pos; ok (done tt, w) ]
