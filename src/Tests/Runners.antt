-- ===== src/Tests/Runners.antt =====
-- src/runner.rs and src/fiber.rs on sockets of one state, and a wheel of four slots.
use easyfibers.Prelude.{
  ℕ, zero, suc, ◌+◌, ◌-◌, ◌*◌, ◌/◌, ◌^◌, ◌≤◌, ◌<◌, ◌≡◌, refl, Bool, true, false, List, [], ◌∷◌,
  ◌++◌, Option, none, some, length, set, get_elem?, arith, ◌⊎◌, inl,
}
use easyfibers.Prelude.Outcome.{ok, stuck}
use easyfibers.Prelude
use easyfibers.Wheel.{Slot}
use easyfibers.Wheel.Tokens.{has}
use easyfibers.Wheel.Cancel.Removal.{Removed}
use easyfibers.Poller
use easyfibers.Poller.{PollerInt, deadline, timer_reg}
use easyfibers.Poller.Timers.{Armed}
use easyfibers.Dns.{v4}
use easyfibers.Fiber.Net.{done, failed, not_connected, NetApi, shaken, interrupted_at}
use easyfibers.Fiber.Sock
use easyfibers.Fiber.Sock.{tls, tcp, udp, no_socket, write_bufs}
use easyfibers.Fiber.Int.{FiberInt, Registry, closed}
use easyfibers.Fiber.Repeat.{write_bufs-stuck}
use easyfibers.Runner
use easyfibers.Runner.{RunnerInt, World, Switch, new_fiber, register, new_timer, cancel_timer}
use easyfibers.Runner.Socket
use easyfibers.Runner.Socket.{write}
use easyfibers.Runner.Counts.{Takes, at_once, write-Takes}
use easyfibers.Runner.Places.{IsRunner, placed, Registered}
use easyfibers.Runner.Registered.{queued, register-Registered}
use easyfibers.Runner.Timers.{released, cancel_timer-Removed}
use easyfibers.Runner.NewTimer.{answer, new_timer-Armed}
use easyfibers.Runner.Steps.{stepped_out}
use easyfibers.Runner.Finished.{cleaned_up, stepped_out-IsRunner}
use easyfibers.Tests.TwoEntries.{Two, two}
use easyfibers.Tests.Wheels.{timed, chain, timed-IsWheel}

-- Every call takes or gives all that there is, but a UDP socket sends nothing.
instance abbrev pub net : NetApi
net = record {
  Tcp = Unit {0};
  Udp = Unit {0};
  Listener = Unit {0};
  Tls = Unit {0};
  Handshake = Unit {0};
  Connector = Unit {0};
  Acceptor = Unit {0};
  tcp_connect = λ addr port. done tt;
  udp_connect = λ s addr port. done tt;
  tcp_read = λ s buf. (done (length buf), buf, tt);
  tcp_read_bufs = λ s bufs. (done (length bufs), bufs, tt);
  tcp_write = λ s buf. (done (length buf), tt);
  tcp_write_bufs = λ s bufs. (done (length bufs), tt);
  tcp_flush = λ s. (done tt, tt);
  udp_recv = λ s buf. (done (length buf), buf, tt);
  udp_send = λ s buf. (done 0, tt);
  accept = λ s. (done (tt, v4 0x7f00_0001, 80), tt);
  tls_read = λ s buf. (done (length buf), buf, tt);
  tls_write = λ s buf. (done (length buf), tt);
  tls_flush = λ s. (done tt, tt);
  tls_connect = λ con domain s. shaken tt;
  tls_accept = λ con s. interrupted_at tt;
  handshake = λ mid. shaken tt;
}

instance abbrev pub registry : Registry
registry = record { register = λ s id rdy. done tt; reregister = λ s id rdy. done tt }

abbrev pub Fiber : Type 0
Fiber = FiberInt ℕ ℕ ℕ

abbrev pub Here : Type 0
Here = World Two ℕ ℕ ℕ

instance abbrev pub switch : Switch Two ℕ ℕ ℕ
switch = record { away = λ pos w. w; inside = λ pos w. w }

abbrev pub fiber : ℕ → Fiber
fiber pos = record (new_fiber 0 none no_socket none none) { me = Poller.fiber_id 0 pos }

-- A fiber with the timer of the token 0, one on a socket, a free place, one that sends, and one that
-- is done.
abbrev pub here : Here
here = record {
  runner = record {
    pos = 0;
    fibers =
        record (fiber 0) { wtoken = some 0; result = some 8 }
        ∷ record (fiber 1) { sock = tcp tt }
        ∷ record (fiber 2) { generation = 5 }
        ∷ record (fiber 3) { sock = udp tt }
        ∷ record (fiber 4) { state = closed; t = true; stack = some 4096; result = some 9 }
        ∷ [];
    free_fibers = 2 ∷ [];
    tomain_fibers = [];
    results = 1 ∷ [];
    tmp_buf = 0 ∷ 0 ∷ [];
  };
  poller = record {
    free_stacks = [];
    wheel = timed;
    stack_size = none;
    toexec_fibers = (7 ∷ []) ∷ [];
    timedout_fibers = [] ∷ [];
    lookup_results = [] ∷ [];
  };
}

pub in_order : IsRunner here.runner
in_order = record { places = places_at; distinct = (refl, tt); ids = ids_at }
  where
    places_at : (a : ℕ) → has a (2 ∷ []) ≡ true → a < 5
    places_at a m = ground arith

    ids_at :
        (i : ℕ) (f : Fiber) → get_elem? here.runner.fibers i ≡ some f → f.me ≡ Poller.fiber_id 0 i
    ids_at zero f e = cc
    ids_at (suc zero) f e = cc
    ids_at (suc (suc zero)) f e = cc
    ids_at (suc (suc (suc zero))) f e = cc
    ids_at (suc (suc (suc (suc zero)))) f e = cc
    ids_at (suc (suc (suc (suc (suc i))))) f e = cc

abbrev nows : ℕ → ℕ
nows _ = 500_000_007

write_bufs-stuck_example : write_bufs 100 (tls tt) (0 ∷ 0 ∷ []) ((5 ∷ []) ∷ []) ≡ stuck
write_bufs-stuck_example =
    write_bufs-stuck (λ t s. (tt, refl)) (5 ∷ []) [] (omega arith) 100 tt (0 ∷ 0 ∷ []) (omega arith)

sends_nothing : Takes 3 nows (7 ∷ []) 0 here 1 here
unfolding Socket.on_sock Sock.write Runner.fiber_at Runner.modify Prelude.Slice.index
    Prelude.Slice.assign
sends_nothing = at_once refl

write-Takes_example :
    (0 < 1 → write 1 here 3 nows (7 ∷ []) ≡ ok (done 0, here))
    × (1 ≡ zero → write 1 here 3 nows (7 ∷ []) ≡ ok (failed not_connected, here))
write-Takes_example = write-Takes 3 nows (7 ∷ []) 0 1 here here sends_nothing

register-Registered_example :
    (pos : ℕ) × (fibers : List Fiber) × (free : List ℕ) × (register here
        (some 6)
        (tcp tt)
        (some 4)
        none
        true
      ≡ ok (
        done pos,
        record here {
          runner = record here.runner { fibers = fibers; free_fibers = free };
          poller = queued here.poller 0 pos true (7 ∷ []);
        },
      ))
    × Registered here.runner (some 6) (tcp tt) (some 4) pos fibers free
register-Registered_example =
    register-Registered here in_order (some 6) (tcp tt) (some 4) true (7 ∷ []) refl refl

cancel_timer-Removed_example :
    (slots : List Slot) × (slab : Two) × (cursor : ℕ) × (cancel_timer here 0
      ≡ ok (
          released here 0
            (record (fiber 0) { wtoken = some 0; result = some 8 })
            (record timed { wheel = slots; slab = slab; cur_slab_idx = cursor })))
    × Removed timed timed-IsWheel 0 slots slab cursor
    × IsRunner
        (released here 0
          (record (fiber 0) { wtoken = some 0; result = some 8 })
          (record timed { wheel = slots; slab = slab; cur_slab_idx = cursor })).runner
    × (cancel_timer
          (released here 0
            (record (fiber 0) { wtoken = some 0; result = some 8 })
            (record timed { wheel = slots; slab = slab; cur_slab_idx = cursor }))
          0
        ≡ ok (
            released here 0
              (record (fiber 0) { wtoken = some 0; result = some 8 })
              (record timed { wheel = slots; slab = slab; cur_slab_idx = cursor })))
cancel_timer-Removed_example =
    cancel_timer-Removed here timed-IsWheel in_order 0 0
      (record (fiber 0) { wtoken = some 0; result = some 8 }) refl refl refl

new_timer-Armed_example :
    (pos : ℕ) × (tk : Option ℕ) × (w' : Here) × (gen : ℕ) × (new_timer here none 100_000_000 none
        (some 3)
        600_000_000
      ≡ ok (answer tk pos, w'))
    × IsRunner w'.runner
    × (has pos w'.runner.free_fibers ≡ false)
    × (get_elem? w'.runner.fibers pos
        ≡ some (record (placed here.runner none no_socket none pos gen) {
          result = some 3;
          wtoken = tk;
        }))
    × Armed timed chain [] (600_000_000 + 100_000_000) (Poller.fiber_id 0 pos) tk w'.poller.wheel
new_timer-Armed_example =
    new_timer-Armed here timed-IsWheel in_order none 100_000_000 none (some 3) 600_000_000 (7 ∷ [])
      refl (inl refl) (omega arith) (omega arith) (omega arith) (omega arith)

stepped_out-IsRunner_example :
    (stepped_out 8192 1 here 4
      ≡ ok (
          cleaned_up here 4 4096
            (record (fiber 4) { state = closed; t = true; stack = some 4096; result = some 9 })))
    × IsRunner
        (cleaned_up here 4 4096 (record (fiber 4) {
          state = closed;
          t = true;
          stack = some 4096;
          result = some 9;
        })).runner
stepped_out-IsRunner_example =
    stepped_out-IsRunner 8192 0 here 4 4096
      (record (fiber 4) { state = closed; t = true; stack = some 4096; result = some 9 }) refl refl
      refl refl refl in_order refl
