-- ===== src/Runner/Handles.antt =====
-- src/fiber.rs and src/runner.rs: what a fiber and the main stack hold of a runner, and their calls,
-- which go to the runner. Those that start a fiber are in Runner.Api. `w` has the runner that a
-- handle names.
use easyfibers.Prelude.{ℕ, List, Option, none, some, Bool, true, false, if◌then◌else◌}
use easyfibers.Prelude.Outcome.{ok, ◌>>=◌}
use easyfibers.Dns.{IpAddr}
use easyfibers.DnsParser.ByteOrder.{BigEndian}
use easyfibers.Dns.Lookup.{Dns, Names}
use easyfibers.Wheel.{Run}
use easyfibers.Wheel.Slab.{SlabApi}
use easyfibers.Fiber.Net.{IoResult, NetApi}
use easyfibers.Fiber.Int.{Registry, SocketType}
use easyfibers.Runner
use easyfibers.Runner.{World, Switch, cancel_timer}
use easyfibers.Runner.Api.{started}
use easyfibers.Runner.Children.{child_iter}
use easyfibers.Runner.Loop
use easyfibers.Runner.Resolve.{new_resolve}
use easyfibers.Runner.Socket
use easyfibers.Runner.Tls
use easyfibers.Runner.Waits

pub record Fiber : Type 0 where
  pub runner : ℕ
  pub id : ℕ

unfoldable pub new : ℕ → ℕ → Fiber
new runner pos = record { runner = runner; id = pos }

unfoldable pub clone : Fiber → Fiber
clone self = record { runner = self.runner; id = self.id }

pub record FiberRef : Type 0 where
  pub runner : ℕ
  pub id : ℕ
  pub resumed : Bool

unfoldable pub new_ref : ℕ → ℕ → FiberRef
new_ref runner id = record { runner = runner; id = id; resumed = false }

pub record TimerRef : Type 0 where
  pub runner : ℕ
  pub id : ℕ

unfoldable pub new_timer_ref : ℕ → ℕ → TimerRef
new_timer_ref runner id = record { runner = runner; id = id }

module _ ⦃net : NetApi⦄ {Store P R Func : Type 0} (w : World Store P R Func) where
  unfoldable pub socket_timeout : Fiber → Option ℕ → Run (World Store P R Func)
  socket_timeout self t = Runner.socket_timeout w self.id t

  unfoldable pub flush : Fiber → Run (IoResult (Unit {0}) × World Store P R Func)
  flush self = Socket.flush w self.id

  unfoldable pub get_response : Option R × World Store P R Func
  get_response = Runner.iter_responses w

  unfoldable pub get_fiber : Option ℕ × World Store P R Func
  get_fiber = Runner.iter_fibers w

  -- The reference, which goes out of scope then, is marked as resumed first.
  unfoldable pub resume_fiber : FiberRef → Option R → Run (FiberRef × World Store P R Func)
  resume_fiber self resp = do
    w ← Runner.resume_fiber w self.id resp
    ok (record self { resumed = true }, w)

  unfoldable pub drop_ref : FiberRef → Run (World Store P R Func)
  drop_ref self = if self.resumed then ok w else Runner.resume_fiber w self.id none

  unfoldable pub drop_timer_ref : ⦃api : SlabApi Store⦄ → TimerRef → Run (World Store P R Func)
  drop_timer_ref self = cancel_timer w self.id

  module _ ⦃switch : Switch Store P R Func⦄ where
    unfoldable pub resp_chunk : Fiber → R → Run (World Store P R Func)
    resp_chunk self chunk = Waits.resp_chunk w self.id chunk

    unfoldable pub accept_tcp :
        ℕ → Fiber → Run (IoResult (net.Tcp × IpAddr × ℕ) × World Store P R Func)
    accept_tcp fuel self = Waits.accept_tcp fuel w self.id

    unfoldable pub join_main : Fiber → Run (Option R × World Store P R Func)
    join_main self = Waits.join_main w self.id

    unfoldable pub get_child : ℕ → Fiber → Run (Option R × World Store P R Func)
    get_child fuel self = child_iter fuel w self.id

    unfoldable pub hibernate_join_main : Fiber → Run (World Store P R Func)
    hibernate_join_main self = Waits.hibernate_join_main w self.id

    module _ ⦃registry : Registry⦄ where
      unfoldable pub hibernate_for_read : Fiber → Run (IoResult (Unit {0}) × World Store P R Func)
      hibernate_for_read self = Waits.hibernate_for_read w self.id

      -- Of the calls that wait, `fuel` bounds the rounds, and `nows` gives the time of each.
      module _ ⦃api : SlabApi Store⦄ (fuel : ℕ) (nows : ℕ → ℕ) (self : Fiber) where
        unfoldable pub read : List ℕ → Run (IoResult ℕ × List ℕ × World Store P R Func)
        read buf = Socket.read fuel w self.id nows buf

        unfoldable pub write : List ℕ → Run (IoResult ℕ × World Store P R Func)
        write buf = Socket.write fuel w self.id nows buf

        unfoldable pub read_bufs :
            List (List ℕ) → Run (IoResult ℕ × List (List ℕ) × World Store P R Func)
        read_bufs bufs = Socket.read_bufs fuel w self.id nows bufs

        unfoldable pub write_bufs : ℕ → List (List ℕ) → Run (IoResult ℕ × World Store P R Func)
        write_bufs rounds bufs = Socket.write_bufs fuel w self.id nows rounds bufs

        unfoldable pub tcp_tls_connect :
            net.Connector → List ℕ → Run (IoResult (Unit {0}) × World Store P R Func)
        tcp_tls_connect con domain = Tls.tcp_tls_connect fuel w self.id con domain nows

        unfoldable pub tcp_tls_accept :
            net.Acceptor → Run (IoResult (Unit {0}) × World Store P R Func)
        tcp_tls_accept con = Tls.tcp_tls_accept fuel w self.id con nows

  module _ ⦃be : BigEndian⦄ ⦃registry : Registry⦄ ⦃names : Names⦄ ⦃api : SlabApi Store⦄ (dns : Dns)
      (domain : List ℕ) (st : SocketType) (port timeout : ℕ) (func : Func) (param : P)
      (now : ℕ) where
    -- `new_resolve_connect` of `Runner` and of `Fiber`
    unfoldable pub new_resolve_connect : Run (IoResult (Unit {0}) × World Store P R Func)
    new_resolve_connect =
        new_resolve dns w none domain (some func) timeout st port param now >>= λ x. ok (started x)

    unfoldable pub join_resolve_connect : Fiber → Run (IoResult (Unit {0}) × World Store P R Func)
    join_resolve_connect self =
        new_resolve dns w (some self.id) domain (some func) timeout st port param now >>= λ x.
        ok (started x)

  -- `Runner::run`
  unfoldable pub run :
      ⦃be : BigEndian⦄ ⦃registry : Registry⦄ ⦃names : Names⦄ ⦃api : SlabApi Store⦄
      ⦃switch : Switch Store P R Func⦄
      → Dns
      → ℕ
      → ℕ
      → ℕ
      → ℕ
      → Run (Bool × World Store P R Func)
  run dns default_stack depth fuel now = Loop.run dns default_stack depth fuel w now
