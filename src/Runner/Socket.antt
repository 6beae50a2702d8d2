-- ===== src/Runner/Socket.antt =====
-- src/runner.rs: `read`, `write`, `read_bufs` and `write_bufs`, which wait while the socket would
-- block. `nows` gives the time of each round.
use easyfibers.Prelude.{
  ℕ, zero, suc, ◌&&◌, List, Option, none, some, Bool, true, false, ◌==◌, ltb, if◌then◌else◌, length,
}
use easyfibers.Prelude.Outcome.{ok, panic, stuck, ◌>>=◌}
use easyfibers.Wheel.{Run}
use easyfibers.Wheel.Slab.{SlabApi}
use easyfibers.Fiber.Net.{
  ErrorKind, would_block, interrupted, not_connected, timed_out, invalid_input, other, unnamed,
  IoResult, done, failed, NetApi,
}
use easyfibers.Fiber.Sock
use easyfibers.Fiber.Sock.{FiberSock}
use easyfibers.Fiber.Int
use easyfibers.Fiber.Int.{FiberInt, Registry, Ready, readable, writable, nothing, unstacked}
use easyfibers.Runner.{World, Switch, fiber_at, modify, timer_reg, timer_cancel}

abbrev pub is_readable : Ready → Bool
is_readable readable = true
is_readable writable = false
is_readable nothing = false

abbrev pub is_writable : Ready → Bool
is_writable writable = true
is_writable readable = false
is_writable nothing = false

-- The end of `read` and `read_bufs`, on a buffer of `room` bytes or a list of `room` buffers: a
-- socket with nothing to read is closed. That of `write` and `write_bufs`, on as many to write.
abbrev pub read_count : ℕ → ℕ → IoResult ℕ
read_count room r = if (r == 0) && ltb 0 room then failed not_connected else done r

abbrev pub write_count : ℕ → ℕ → IoResult ℕ
write_count room r = if (r == 0) && (room == 0) then failed not_connected else done r

module _ ⦃net : NetApi⦄ where
  -- A write leaves its buffer.
  abbrev pub sent : FiberSock net → List ℕ → IoResult ℕ × List ℕ × FiberSock net
  sent s buf = let (res, s) = Sock.write s buf in (res, buf, s)

module _ ⦃net : NetApi⦄ {Store P R Func : Type 0} where
  -- `self.fibers[pos].register(&poller().poller(), rdy)?` and what follows it.
  unfoldable pub register_for :
      ⦃registry : Registry⦄
      → World Store P R Func
      → ℕ
      → Ready
      → Run (IoResult (Unit {0}) × World Store P R Func)
  register_for w pos rdy = do
    f ← fiber_at w pos
    let (res, f) = Int.register f rdy
    w ← modify w pos λ _. f
    ok (res, w)

  unfoldable pub flush : World Store P R Func → ℕ → Run (IoResult (Unit {0}) × World Store P R Func)
  flush w pos = do
    f ← fiber_at w pos
    let (res, sock) = Sock.flush f.sock
    w ← modify w pos λ f. record f { sock = sock }
    ok (res, w)

module _ ⦃net : NetApi⦄ {Store P R Func : Type 0} ⦃switch : Switch Store P R Func⦄ where
  -- The transfer is taken, used and put back.
  unfoldable pub step_out : World Store P R Func → ℕ → Run (World Store P R Func)
  step_out w pos = do
    f ← fiber_at w pos
    if f.t
        then (do
          w ← modify w pos λ f. record f { t = false }
          modify (switch.away pos w) pos λ f. record f { t = true })
        else panic

  module _ ⦃api : SlabApi Store⦄ where
    abbrev set_alarm : World Store P R Func → ℕ → Option ℕ → Run (World Store P R Func)
    set_alarm w pos none = ok w
    set_alarm w pos (some tk) = modify w pos λ f. record f { timed_out = 0; wtoken = some tk }

    abbrev clear_alarm : World Store P R Func → ℕ → Option ℕ → Run (World Store P R Func)
    clear_alarm w pos none = ok w
    clear_alarm w pos (some tk) = do
      w ← timer_cancel w tk
      modify w pos λ f. record f { wtoken = none }

    unfoldable pub timed_step_out : World Store P R Func → ℕ → ℕ → Run (World Store P R Func)
    timed_step_out w pos now = do
      f ← fiber_at w pos
      w ← elim f.timeout [
        | none ↦ ok w
        | some dur ↦ do (tk, w) ← timer_reg w f.me (some dur) now; set_alarm w pos tk
      ]
      w ← step_out w pos
      f ← fiber_at w pos
      clear_alarm w pos f.wtoken

    -- A round that would block: the interest is registered if it is not yet, and the fiber waits, at
    -- most for its timeout. `none` is another round.
    unfoldable pub wait_for :
        ⦃registry : Registry⦄
        → (Ready → Bool)
        → Ready
        → World Store P R Func
        → ℕ
        → ℕ
        → Run (Option ErrorKind × World Store P R Func)
    wait_for is_set rdy w pos now = do
      f ← fiber_at w pos
      (res, w) ← if is_set f.ready then ok (done tt, w) else register_for w pos rdy
      elim res [
        | failed kind ↦ ok (some kind, w)
        | done _ ↦ do
          w ← timed_step_out w pos now
          f ← fiber_at w pos
          if ltb 0 f.timed_out
              then (do w ← modify w pos λ f. record f { timed_out = 0 }; ok (some timed_out, w))
              else ok (none, w)
      ]

    -- After the wait: its error, or another round.
    abbrev pub waited :
        {Buf : Type 0}
        → Buf
        → (World Store P R Func → Run (IoResult ℕ × Buf × World Store P R Func))
        → Option ErrorKind × World Store P R Func
        → Run (IoResult ℕ × Buf × World Store P R Func)
    waited buf again (some kind, w) = ok (failed kind, buf, w)
    waited buf again (none, w) = again w

    -- What a round makes of the result of the call: `again` is another round.
    unfoldable pub react :
        ⦃registry : Registry⦄ {Buf : Type 0}
        → (Ready → Bool)
        → Ready
        → (ℕ → IoResult ℕ)
        → ℕ
        → ℕ
        → (World Store P R Func → Run (IoResult ℕ × Buf × World Store P R Func))
        → IoResult ℕ
        → Buf
        → World Store P R Func
        → Run (IoResult ℕ × Buf × World Store P R Func)
    react is_set rdy finish pos now again (done r) buf w = ok (finish r, buf, w)
    react is_set rdy finish pos now again (failed would_block) buf w =
        wait_for is_set rdy w pos now >>= waited buf again
    react is_set rdy finish pos now again (failed interrupted) buf w = again w
    react is_set rdy finish pos now again (failed not_connected) buf w =
        ok (failed not_connected, buf, w)
    react is_set rdy finish pos now again (failed timed_out) buf w = ok (failed timed_out, buf, w)
    react is_set rdy finish pos now again (failed invalid_input) buf w =
        ok (failed invalid_input, buf, w)
    react is_set rdy finish pos now again (failed other) buf w = ok (failed other, buf, w)
    react is_set rdy finish pos now again (failed (unnamed n)) buf w =
        ok (failed (unnamed n), buf, w)

    -- The loop of the four: `attempt` is the call on the socket, `finish` what is made of its count.
    -- `fuel` bounds the rounds.
    unfoldable pub retry :
        ⦃registry : Registry⦄ {Buf : Type 0}
        → ℕ
        → (Ready → Bool)
        → Ready
        → (ℕ → IoResult ℕ)
        → (World Store P R Func → Buf → Run (IoResult ℕ × Buf × World Store P R Func))
        → World Store P R Func
        → ℕ
        → Buf
        → (ℕ → ℕ)
        → Run (IoResult ℕ × Buf × World Store P R Func)
    retry zero is_set rdy finish attempt w pos buf nows = stuck
    retry (suc fuel) is_set rdy finish attempt w pos buf nows = do
      (res, buf, w) ← attempt w buf
      react is_set rdy finish pos (nows fuel)
          (λ w. retry fuel is_set rdy finish attempt w pos buf nows) res buf w

    -- A call on the socket of the fiber.
    unfoldable pub on_sock :
        {Buf : Type 0}
        → (FiberSock net → Buf → IoResult ℕ × Buf × FiberSock net)
        → ℕ
        → World Store P R Func
        → Buf
        → Run (IoResult ℕ × Buf × World Store P R Func)
    on_sock call pos w buf = do
      f ← fiber_at w pos
      let (res, buf, sock) = call f.sock buf
      w ← modify w pos λ f. record f { sock = sock }
      ok (res, buf, w)

    module _ ⦃registry : Registry⦄ (fuel : ℕ) (w : World Store P R Func) (pos : ℕ)
        (nows : ℕ → ℕ) where
      unfoldable pub read : List ℕ → Run (IoResult ℕ × List ℕ × World Store P R Func)
      read buf =
          retry fuel is_readable readable (read_count (length buf)) (on_sock Sock.read pos) w pos
            buf nows

      unfoldable pub read_bufs :
          List (List ℕ) → Run (IoResult ℕ × List (List ℕ) × World Store P R Func)
      read_bufs bufs =
          retry fuel is_readable readable (read_count (length bufs)) (on_sock Sock.read_bufs pos) w
            pos bufs nows

      unfoldable pub write : List ℕ → Run (IoResult ℕ × World Store P R Func)
      write buf = do
        (res, _, w) ←
            retry fuel is_writable writable (write_count (length buf)) (on_sock sent pos) w pos buf
              nows
        ok (res, w)

      -- `rounds` bounds the loop of the socket.
      unfoldable pub write_bufs : ℕ → List (List ℕ) → Run (IoResult ℕ × World Store P R Func)
      write_bufs rounds bufs = do
        (res, _, w) ←
            retry fuel is_writable writable (write_count (length bufs))
              (λ w bufs. do
                f ← fiber_at w pos
                (res, tmp, sock) ← Sock.write_bufs rounds f.sock w.runner.tmp_buf bufs
                w ← modify w pos λ f. record f { sock = sock }
                ok (res, bufs, record w { runner = record w.runner { tmp_buf = tmp } }))
              w pos bufs nows
        ok (res, w)
