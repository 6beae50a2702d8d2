-- ===== src/Runner/Tls.antt =====
-- src/runner.rs: the handshakes of TLS. What native_tls answers is a parameter.
use easyfibers.Prelude.{ℕ, zero, suc, List, ltb, if◌then◌else◌}
use easyfibers.Prelude.Outcome.{ok, stuck, ◌>>=◌}
use easyfibers.Wheel.{Run}
use easyfibers.Wheel.Slab.{SlabApi}
use easyfibers.Fiber.Net.{
  invalid_input, timed_out, other, IoResult, done, failed, NetApi, Shaken, shaken, interrupted_at,
  refused,
}
use easyfibers.Fiber.Sock.{FiberSock, tcp, udp, listener, tls, tls_temp, no_socket}
use easyfibers.Fiber.Int.{Registry, readable}
use easyfibers.Runner.{World, Switch, fiber_at, modify}
use easyfibers.Runner.Socket.{register_for, timed_step_out}

module _ ⦃net : NetApi⦄ ⦃registry : Registry⦄ {Store P R Func : Type 0} ⦃api : SlabApi Store⦄
    ⦃switch : Switch Store P R Func⦄ where
  -- `swap(&mut self.fibers[pos].sock, &mut sock)` with an empty one.
  unfoldable pub take_sock : World Store P R Func → ℕ → Run (FiberSock net × World Store P R Func)
  take_sock w pos = do
    f ← fiber_at w pos
    w ← modify w pos λ f. record f { sock = no_socket }
    ok (f.sock, w)

  -- The handshake that was interrupted is where it was left, or the socket is another one.
  abbrev go_on :
      (Shaken net.Tls net.Handshake
        → World Store P R Func
        → Run (IoResult (Unit {0}) × World Store P R Func))
      → FiberSock net × World Store P R Func
      → Run (IoResult (Unit {0}) × World Store P R Func)
  go_on again (tls_temp mid, w) = again (net.handshake mid) w
  go_on again (tcp _, w) = ok (failed other, w)
  go_on again (udp _, w) = ok (failed other, w)
  go_on again (listener _, w) = ok (failed other, w)
  go_on again (tls _, w) = ok (failed other, w)
  go_on again (no_socket, w) = ok (failed other, w)

  -- The fiber waits until the handshake can go on.
  unfoldable pub pause :
      World Store P R Func
      → ℕ
      → net.Handshake
      → ℕ
      → (Shaken net.Tls net.Handshake
          → World Store P R Func
          → Run (IoResult (Unit {0}) × World Store P R Func))
      → Run (IoResult (Unit {0}) × World Store P R Func)
  pause w pos mid now again = do
    w ← modify w pos λ f. record f { sock = tls_temp mid }
    (res, w) ← register_for w pos readable
    elim res [
      | failed kind ↦ ok (failed kind, w)
      | done _ ↦ do
        w ← timed_step_out w pos now
        f ← fiber_at w pos
        if ltb 0 f.timed_out
            then (do w ← modify w pos λ f. record f { timed_out = 0 }; ok (failed timed_out, w))
            else take_sock w pos >>= go_on again
    ]

  -- `fuel` bounds the rounds, `nows` gives the time of each.
  unfoldable pub tls_handshake :
      ℕ
      → World Store P R Func
      → ℕ
      → Shaken net.Tls net.Handshake
      → (ℕ → ℕ)
      → Run (IoResult (Unit {0}) × World Store P R Func)
  tls_handshake zero w pos cr nows = stuck
  tls_handshake (suc fuel) w pos cr nows = elim cr [
    | shaken s ↦ do w ← modify w pos λ f. record f { sock = tls s }; ok (done tt, w)
    | interrupted_at mid ↦ pause w pos mid (nows fuel) (λ cr w. tls_handshake fuel w pos cr nows)
    | refused ↦ ok (failed other, w)
  ]

  -- The handshake on a TCP socket; any other socket is gone.
  abbrev on_tcp :
      (net.Tcp → World Store P R Func → Run (IoResult (Unit {0}) × World Store P R Func))
      → FiberSock net × World Store P R Func
      → Run (IoResult (Unit {0}) × World Store P R Func)
  on_tcp shake (tcp s, w) = shake s w
  on_tcp shake (udp _, w) = ok (failed invalid_input, w)
  on_tcp shake (listener _, w) = ok (failed invalid_input, w)
  on_tcp shake (tls _, w) = ok (failed invalid_input, w)
  on_tcp shake (tls_temp _, w) = ok (failed invalid_input, w)
  on_tcp shake (no_socket, w) = ok (failed invalid_input, w)

  unfoldable pub tcp_tls_connect :
      ℕ
      → World Store P R Func
      → ℕ
      → net.Connector
      → List ℕ
      → (ℕ → ℕ)
      → Run (IoResult (Unit {0}) × World Store P R Func)
  tcp_tls_connect fuel w pos con domain nows =
      take_sock w pos >>= on_tcp λ s w. tls_handshake fuel w pos (net.tls_connect con domain s) nows

  unfoldable pub tcp_tls_accept :
      ℕ
      → World Store P R Func
      → ℕ
      → net.Acceptor
      → (ℕ → ℕ)
      → Run (IoResult (Unit {0}) × World Store P R Func)
  tcp_tls_accept fuel w pos con nows =
      take_sock w pos >>= on_tcp λ s w. tls_handshake fuel w pos (net.tls_accept con s) nows
