-- ===== src/Runner/Steps.antt =====
-- src/runner.rs: going into a fiber and back, and the loop of `run`.
use easyfibers.Prelude.{ℕ, zero, suc, none, some, Bool, true, false, ◌&&◌, not, if◌then◌else◌}
use easyfibers.Prelude.Outcome.{ok, panic, stuck, ◌>>=◌}
use easyfibers.Dns.{IpAddr}
use easyfibers.Wheel.{Run}
use easyfibers.Poller
use easyfibers.Fiber.Net.{done, failed, NetApi}
use easyfibers.Fiber.Sock.{FiberSock, tcp, udp, no_socket}
use easyfibers.Fiber.Int
use easyfibers.Fiber.Int.{
  FiberInt, FiberState, closed, stacked, unstacked, Registry, nothing, writable, ConnectParam,
  SocketType, by_tcp, by_udp,
}
use easyfibers.Runner.{World, Switch, fiber_at, modify, push_toexec, push_free, take_result}
use easyfibers.Runner.Children.{is_closed, is_some}

abbrev is_stacked : FiberState → Bool
is_stacked stacked = true
is_stacked unstacked = false
is_stacked closed = false

module _ ⦃net : NetApi⦄ where
  -- `TcpStream::connect`, or `connect` of the UDP socket: no socket where it fails.
  abbrev pub connected : ConnectParam → IpAddr → FiberSock net
  connected cp addr = elim cp.st [
    | by_tcp ↦ elim (net.tcp_connect addr cp.port) [ done s ↦ tcp s | failed _ ↦ no_socket ]
    | by_udp s ↦ elim (net.udp_connect s addr cp.port) [ done s ↦ udp s | failed _ ↦ no_socket ]
  ]

module _ ⦃net : NetApi⦄ {Store P R Func : Type 0} where
  -- The stack goes back to the poller.
  unfoldable pub unstack : World Store P R Func → ℕ → Run (World Store P R Func)
  unstack w pos = do
    f ← fiber_at w pos
    elim f.stack [
      | none ↦ panic
      | some stack ↦ do
        w ← modify w pos λ f. record f { stack = none; t = false }
        ok (record w { poller = Poller.stack_push w.poller stack })
    ]

  module _ ⦃switch : Switch Store P R Func⦄ (default_stack : ℕ) where
    -- The fiber gets a stack if it has none.
    unfoldable pub restack : World Store P R Func → ℕ → Run (World Store P R Func)
    restack w pos = do
      f ← fiber_at w pos
      let (stack, p) = Poller.stack_pop default_stack w.poller
      if f.t
          then ok w
          else modify (record w { poller = p }) pos λ f. record f { stack = some stack; t = true }

    -- `step_into` up to where the main stack is back. A fiber with no function is closed.
    unfoldable pub enter : World Store P R Func → ℕ → Run (World Store P R Func)
    enter w pos = do
      f ← fiber_at w pos
      elim f.func [
        | none ↦ modify w pos λ f. record f { state = closed }
        | some _ ↦ do
          w ← restack w pos
          w ← modify w pos λ f. record f { t = false }
          modify (switch.inside pos w) pos λ f. record f { t = true }
      ]

    -- `stepped_out`; `fuel` bounds the parents that are stepped into.
    unfoldable pub stepped_out : ℕ → World Store P R Func → ℕ → Run (World Store P R Func)
    stepped_out zero w pos = stuck
    stepped_out (suc fuel) w pos = do
      f ← fiber_at w pos
      w ← if not (is_stacked f.state) && f.t then unstack w pos else ok w
      let into_parent = λ (w : World Store P R Func) (parent : ℕ). (do
        w ← enter w parent
        stepped_out fuel w parent)
      if is_closed f.state
          then (do
            w ← modify w pos λ f. record f { sock = no_socket }
            elim f.parent [
              | some parent ↦ into_parent w parent
              | none ↦ do w ← take_result w pos; ok (push_free w pos)
            ])
          else elim f.parent [
            | some parent ↦ if is_some f.result then into_parent w parent else ok w
            | none ↦
                if is_some f.result then (do w ← take_result w pos; push_toexec w pos) else ok w
          ]

    unfoldable pub step_into : ℕ → World Store P R Func → ℕ → Run (World Store P R Func)
    step_into fuel w pos = do w ← enter w pos; stepped_out fuel w pos

    unfoldable pub have_addr :
        ⦃registry : Registry⦄ → ℕ → World Store P R Func → ℕ → IpAddr → Run (World Store P R Func)
    have_addr fuel w pos addr = do
      f ← fiber_at w pos
      elim f.connect_param [
        | none ↦ panic
        | some cp ↦ do
          let f = record f {
            sock = connected cp addr;
            ready = nothing;
            timed_out = 0;
            connect_param = none;
          }
          let (res, f) = Int.register f writable
          w ← modify w pos λ _. f
          elim res [ done _ ↦ ok w | failed _ ↦ step_into fuel w pos ]
      ]
