-- ===== src/Tests/Resolving.antt =====
-- src/runner.rs: `new_resolve`, the table of runners and the start of a fiber, on concrete values.
use easyfibers.Prelude.{
  zero, suc, ◌<◌, ◌≢◌, get_elem?, ℕ, ◌≤◌, ◌≡◌, refl, true, [], ◌∷◌, Option, none, some, arith, ◌/◌,
  inl,
}
use easyfibers.Prelude.Outcome.{ok, panic}
use easyfibers.Dns.Lookup.{
  Dns, Names, start_lookup, first_lookup, last_lookup, get_socket_v4, get_socket_v6,
}
use easyfibers.Fiber.Net.{IoResult, other, done, failed}
use easyfibers.Fiber.Int.{by_tcp, unstacked, closed}
use easyfibers.Runner.{modify}
use easyfibers.Runner.Api
use easyfibers.Runner.Context.{begin, begin-hibernated}
use easyfibers.Runner.Refused.{Cleared, resolve_ticks-bounds, new_resolve-Cleared}
use easyfibers.Runner.Resolve.{resolve_ticks, new_resolve}
use easyfibers.Runner.Start.{
  Thread, Started, start_runner, drop_runner, find_empty, find_from, set_runner,
  start_runner-Started, drop_runner-start_runner,
}
use easyfibers.Runner.Steps.{unstack}
use easyfibers.Runner.Tls.{tcp_tls_connect}
use easyfibers.Runner.Shook.{Shook, tcp_tls_connect-Shook}
use easyfibers.Fiber.Sock.{FiberSock, tcp}
use easyfibers.Runner.Children.{child_iter}
use easyfibers.Runner.Taken.{FirstReady, Took, child_iter-result}
use easyfibers.Tests.Network.{big_endian, example}
use easyfibers.Tests.TwoEntries.{two}
use easyfibers.Tests.Wheels.{timed-IsWheel}
use easyfibers.Tests.Runners.{net, registry, switch, Here, here, Fiber, fiber, in_order}

-- No socket can be bound.
instance abbrev names : Names
names = record {
  bind = λ addr port. failed other;
  send = λ s addr datagram. failed other;
  ids = λ i. i;
}

abbrev no_servers : Dns
no_servers = record { srvs = [] }

resolve_ticks-bounds_example :
    (ticks : ℕ) × (resolve_ticks 1_000_000_000 ≡ ok ticks)
    × (1 ≤ ticks)
    × (ticks ≤ 255)
    × (1 ≤ 1_000_000_000 / 250_000_000
        → 1_000_000_000 / 250_000_000 ≤ 255
        → ticks ≡ 1_000_000_000 / 250_000_000)
resolve_ticks-bounds_example = resolve_ticks-bounds 1_000_000_000 (omega arith)

refuses : start_lookup no_servers example ≡ ok (failed other)
unfolding start_lookup first_lookup last_lookup get_socket_v4 get_socket_v6
refuses = refl

new_resolve-Cleared_example :
    (pos : ℕ) × (tk : Option ℕ) × (w' : Here) × (new_resolve no_servers here none example
        (some 3)
        1_000_000_000
        by_tcp
        80
        4
        600_000_000
      ≡ ok (failed other, w'))
    × Cleared here 600_000_000 pos tk w'
new_resolve-Cleared_example =
    new_resolve-Cleared no_servers here timed-IsWheel in_order example (some 3) 1_000_000_000 by_tcp
      80 4 600_000_000 (7 ∷ []) other (omega arith) refl refuses (omega arith) (inl refl)
      (omega arith) (omega arith) (omega arith) (omega arith)

-- A thread whose first runner is there, and the second is not.
abbrev thread : Thread ℕ ℕ ℕ
thread = record { has_poller = true; runners = some (Api.new 0) ∷ none ∷ none ∷ [] }

start_runner-Started_example : Started thread (start_runner thread)
start_runner-Started_example = start_runner-Started thread

started_second :
    start_runner thread
    ≡ (done 1, record thread { runners = some (Api.new 0) ∷ some (Api.new 1) ∷ none ∷ [] })
unfolding start_runner find_empty find_from set_runner
started_second = refl

drop_runner-start_runner_example :
    drop_runner (record thread { runners = some (Api.new 0) ∷ some (Api.new 1) ∷ none ∷ [] }) 1
    ≡ thread
drop_runner-start_runner_example = drop_runner-start_runner thread 1 _ started_second

abbrev ready : Fiber
ready = record (fiber 0) { func = some 3; param = some 4; stack = some 4096 }

abbrev entered : Here
entered = record here { runner = record here.runner { fibers = ready ∷ [] } }

begin-hibernated_example :
    (w1 : Here) × (w2 : Here) × (w3 : Here) × (begin entered 0 ≡ ok (3, 4, w1))
    × ((modify w1 0 λ f. record f { state = unstacked }) ≡ ok w2)
    × (unstack w2 0 ≡ ok w3)
    × (begin w3 0 ≡ panic)
begin-hibernated_example = begin-hibernated entered 0 ready 3 4 4096 refl refl refl refl

-- A parent whose first child has nothing, and the second one is done.
abbrev parent : Fiber
parent = record (fiber 0) { children = 1 ∷ 2 ∷ [] }

abbrev child : Fiber
child = record (fiber 2) { state = closed; result = some 9; parent = some 0 }

abbrev family : Here
family = record here {
  runner = record here.runner { fibers = parent ∷ fiber 1 ∷ child ∷ []; free_fibers = [] };
}

second_child : FirstReady family (1 ∷ 2 ∷ []) 2 1 child
second_child = record { listed = refl; here = refl; before = earlier }
  where
    earlier :
        (j : ℕ)
        → j < 1
        → (d : ℕ) × (g : Fiber) × (get_elem? (1 ∷ 2 ∷ []) j ≡ some d)
          × (get_elem? family.runner.fibers d ≡ some g)
          × (g.state ≢ closed)
          × (g.result ≡ none)
    earlier zero lt = (1, fiber 1, refl, refl, (λ k. cc), refl)
    earlier (suc j) lt = absurd (omega arith)

child_iter-result_example :
    (w' : Here) × (child_iter 1 family 0 ≡ ok (some 9, w'))
    × Took family 0 parent 2 1 child (7 ∷ []) w'
child_iter-result_example =
    child_iter-result 0 family 0 2 1 parent child 9 (7 ∷ []) refl second_child refl
      (λ k. omega arith) refl

tcp_tls_connect-Shook_example :
    (res : IoResult (Unit {0})) × (sock : FiberSock net) × (w' : Here) × (tcp_tls_connect 1 here 1
        tt example
        (λ i. 0)
      ≡ ok (res, w'))
    × (get_elem? w'.runner.fibers 1 ≡ some (record (fiber 1) { sock = sock }))
    × Shook tt example (tcp tt) res sock
tcp_tls_connect-Shook_example =
    tcp_tls_connect-Shook here 1 (record (fiber 1) { sock = tcp tt }) refl tt example 0 (λ i. 0)
      (λ s mid e. cc)
