-- ===== src/Runner/Shook.antt =====
-- src/runner.rs: what a handshake of TLS leaves as the socket of the fiber.
use easyfibers.Prelude.{ℕ, suc, ◌≡◌, ◌≢◌, refl, List, some, get_elem?, get_elem?-set_self}
use easyfibers.Prelude.Outcome.{ok}
use easyfibers.Prelude.Slice.{index}
use easyfibers.Wheel.Slab.{SlabApi}
use easyfibers.Wheel.Cancel.Relink.{get_elem?-lt}
use easyfibers.Fiber.Net.{
  invalid_input, other, IoResult, done, failed, NetApi, Shaken, shaken, interrupted_at, refused,
}
use easyfibers.Fiber.Sock.{FiberSock, tcp, udp, listener, tls, tls_temp, no_socket}
use easyfibers.Fiber.Int.{FiberInt, Registry}
use easyfibers.Runner.{World, Switch, fiber_at}
use easyfibers.Runner.Registered.{changed, modify_lem}
use easyfibers.Runner.Tls.{take_sock, tls_handshake, tcp_tls_connect}

module _ ⦃net : NetApi⦄ where
  -- The answer of a call on the socket `sock`, and the socket that is left: the handshake succeeded,
  -- it failed, or there was no TCP socket to begin with.
  pub data Shook (con : net.Connector) (domain : List ℕ)
      : FiberSock net → IoResult (Unit {0}) → FiberSock net → Type 0 where
    secured :
        {s : net.Tcp} {t : net.Tls}
        → net.tls_connect con domain s ≡ shaken t
        → Shook con domain (tcp s) (done tt) (tls t)
    rejected :
        {s : net.Tcp}
        → net.tls_connect con domain s ≡ refused
        → Shook con domain (tcp s) (failed other) no_socket
    not_tcp :
        {sock : FiberSock net}
        → ((s : net.Tcp) → sock ≢ tcp s)
        → Shook con domain sock (failed invalid_input) no_socket

module _ ⦃net : NetApi⦄ ⦃registry : Registry⦄ {Store P R Func : Type 0} ⦃api : SlabApi Store⦄
    ⦃switch : Switch Store P R Func⦄ (w : World Store P R Func) (pos : ℕ) (f : FiberInt P R Func)
    (at : get_elem? w.runner.fibers pos ≡ some f) (con : net.Connector) (domain : List ℕ) (fuel : ℕ)
    (nows : ℕ → ℕ) where
  abbrev emptied : World Store P R Func
  emptied = changed w pos (record f { sock = no_socket })

  at_emptied : get_elem? emptied.runner.fibers pos ≡ some (record f { sock = no_socket })
  at_emptied =
      get_elem?-set_self w.runner.fibers pos (record f { sock = no_socket })
        (get_elem?-lt w.runner.fibers pos f at)

  take_sock_lem : take_sock w pos ≡ ok (f.sock, emptied)
  unfolding take_sock fiber_at index
  take_sock_lem = rw (at, modify_lem w pos f (λ f. record f { sock = no_socket }) at) refl

  abbrev EndsAt : FiberSock net → Type 0
  EndsAt s =
      (res : IoResult (Unit {0})) × (sock : FiberSock net) × (w' : World Store P R Func)
      × (tcp_tls_connect (suc fuel) w pos con domain nows ≡ ok (res, w'))
      × (get_elem? w'.runner.fibers pos ≡ some (record f { sock = sock }))
      × Shook con domain s res sock

  no_tcp :
      (sock : FiberSock net)
      → ((s : net.Tcp) → sock ≢ tcp s)
      → tcp_tls_connect (suc fuel) w pos con domain nows ≡ ok (failed invalid_input, emptied)
      → EndsAt sock
  no_tcp sock other_kind e =
      (failed invalid_input, no_socket, emptied, e, at_emptied, not_tcp other_kind)

  handshake_lem :
      (s : net.Tcp) (cr : Shaken net.Tls net.Handshake)
      → f.sock ≡ tcp s
      → net.tls_connect con domain s ≡ cr
      → ((mid : net.Handshake) → cr ≢ interrupted_at mid)
      → EndsAt (tcp s)
  unfolding tcp_tls_connect tls_handshake
  handshake_lem s (shaken t) is_tcp answer whole =
      let g = record f { sock = tls t } in
      (
        done tt,
        tls t,
        changed emptied pos g,
        rw
            (
              take_sock_lem,
              is_tcp,
              answer,
              modify_lem emptied pos (record f { sock = no_socket })
                  (λ f. record f { sock = tls t }) at_emptied,
            )
            refl,
        get_elem?-set_self emptied.runner.fibers pos g
            (get_elem?-lt emptied.runner.fibers pos (record f { sock = no_socket }) at_emptied),
        secured answer,
      )
  handshake_lem s (interrupted_at mid) is_tcp answer whole = absurd (whole mid refl)
  handshake_lem s refused is_tcp answer whole = (
    failed other,
    no_socket,
    emptied,
    rw (take_sock_lem, is_tcp, answer) refl,
    at_emptied,
    rejected answer,
  )

  -- `tcp_tls_connect` of a fiber, where the handshake is not interrupted, returns and never panics.
  -- The answer is `Ok` and the socket of the fiber is that of TLS, or it is an error and the fiber has
  -- no socket any more: so it is where the handshake fails, and where the socket was not a TCP one.
  pub tcp_tls_connect-Shook :
      ((s : net.Tcp) (mid : net.Handshake) → net.tls_connect con domain s ≢ interrupted_at mid)
      → (res : IoResult (Unit {0})) × (sock : FiberSock net) × (w' : World Store P R Func)
        × (tcp_tls_connect (suc fuel) w pos con domain nows ≡ ok (res, w'))
        × (get_elem? w'.runner.fibers pos ≡ some (record f { sock = sock }))
        × Shook con domain f.sock res sock
  unfolding tcp_tls_connect
  tcp_tls_connect-Shook whole = go f.sock refl
    where
      go : (s : FiberSock net) → f.sock ≡ s → EndsAt f.sock
      go (tcp s) k =
          rw k (handshake_lem s (net.tls_connect con domain s) k refl (λ mid. whole s mid))
      go (udp s) k = rw k (no_tcp (udp s) (λ t e. cc) (rw (take_sock_lem, k) refl))
      go (listener s) k = rw k (no_tcp (listener s) (λ t e. cc) (rw (take_sock_lem, k) refl))
      go (tls s) k = rw k (no_tcp (tls s) (λ t e. cc) (rw (take_sock_lem, k) refl))
      go (tls_temp s) k = rw k (no_tcp (tls_temp s) (λ t e. cc) (rw (take_sock_lem, k) refl))
      go no_socket k = rw k (no_tcp no_socket (λ t e. cc) (rw (take_sock_lem, k) refl))
