-- ===== src/Runner/Api.antt =====
-- src/runner.rs and src/fiber.rs: the calls of `Runner` and `Fiber` that start a fiber. `Fiber` has the
-- calls of `Runner` under the same names.
use easyfibers.Prelude.{ℕ, [], Option, none, some, true, replicate}
use easyfibers.Prelude.Outcome.{ok, ◌>>=◌}
use easyfibers.Wheel.{Run}
use easyfibers.Wheel.Slab.{SlabApi}
use easyfibers.Fiber.Net.{IoResult, done, failed, NetApi}
use easyfibers.Fiber.Sock.{tcp, udp, listener, no_socket}
use easyfibers.Fiber.Int.{Registry}
use easyfibers.Runner.{RunnerInt, World, register, resume_fiber, cancel_timer}
use easyfibers.Runner

module _ ⦃net : NetApi⦄ {P R Func : Type 0} where
  unfoldable pub new : ℕ → RunnerInt P R Func
  new pos = record {
    pos = pos;
    fibers = [];
    free_fibers = [];
    tomain_fibers = [];
    results = [];
    tmp_buf = replicate 16384 0;
  }

module _ ⦃net : NetApi⦄ {Store P R Func : Type 0} where
  -- `.map(|_|{()})`
  abbrev pub started :
      IoResult ℕ × World Store P R Func → IoResult (Unit {0}) × World Store P R Func
  started (done _, w) = (done tt, w)
  started (failed kind, w) = (failed kind, w)

  module _ ⦃registry : Registry⦄ (w : World Store P R Func) where
    unfoldable pub new_tcp : net.Tcp → Func → P → Run (IoResult (Unit {0}) × World Store P R Func)
    new_tcp s func param =
        register w (some func) (tcp s) (some param) none true >>= λ x. ok (started x)

    unfoldable pub new_listener :
        net.Listener → Func → P → Run (IoResult (Unit {0}) × World Store P R Func)
    new_listener s func param =
        register w (some func) (listener s) (some param) none true >>= λ x. ok (started x)

    unfoldable pub new_udp : net.Udp → Func → P → Run (IoResult (Unit {0}) × World Store P R Func)
    new_udp s func param =
        register w (some func) (udp s) (some param) none true >>= λ x. ok (started x)

    unfoldable pub new_processor : Func → P → Run (IoResult (Unit {0}) × World Store P R Func)
    new_processor func param =
        register w (some func) no_socket (some param) none true >>= λ x. ok (started x)

    -- A child of the fiber `id`.
    unfoldable pub join_tcp :
        ℕ → net.Tcp → Func → P → Run (IoResult (Unit {0}) × World Store P R Func)
    join_tcp id s func param =
        register w (some func) (tcp s) (some param) (some id) true >>= λ x. ok (started x)

    unfoldable pub join_udp :
        ℕ → net.Udp → Func → P → Run (IoResult (Unit {0}) × World Store P R Func)
    join_udp id s func param =
        register w (some func) (udp s) (some param) (some id) true >>= λ x. ok (started x)

    -- A timer that answers, and one that runs a fiber: the place is that of the `TimerRef`.
    unfoldable pub new_timer :
        ⦃api : SlabApi Store⦄ → ℕ → R → ℕ → Run (Option ℕ × World Store P R Func)
    new_timer dur resp now = Runner.new_timer w none dur none (some resp) now

    unfoldable pub new_fiber_timer :
        ⦃api : SlabApi Store⦄ → ℕ → Func → P → ℕ → Run (Option ℕ × World Store P R Func)
    new_fiber_timer dur func param now = Runner.new_timer w (some func) dur (some param) none now
