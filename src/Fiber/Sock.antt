-- ===== src/Fiber/Sock.antt =====
-- src/fiber.rs: `FiberSock`. An error with a text is its kind.
use easyfibers.Prelude.{ℕ, zero, suc, ◌+◌, ◌&&◌, List, [], ◌∷◌, ◌==◌, ltb, if◌then◌else◌, length}
use easyfibers.Prelude.Outcome.{ok, stuck, ◌>>=◌}
use easyfibers.Dns.{IpAddr}
use easyfibers.Prelude.Slice.{index, slice, splice}
use easyfibers.Wheel.{Run}
use easyfibers.Fiber.Net.{invalid_input, IoResult, done, failed, NetApi}

pub data FiberSock (net : NetApi) : Type 0 where
  tcp : net.Tcp → FiberSock net
  udp : net.Udp → FiberSock net
  listener : net.Listener → FiberSock net
  tls : net.Tls → FiberSock net
  tls_temp : net.Handshake → FiberSock net
  no_socket : FiberSock net

module _ ⦃net : NetApi⦄ where
  -- The loop over the buffers on a TLS socket: the count, the buffers and the socket.
  unfoldable pub read_loop : net.Tls → List (List ℕ) → ℕ → IoResult ℕ × List (List ℕ) × net.Tls
  read_loop t [] sz = (done sz, [], t)
  read_loop t (b ∷ bufs) sz =
      let (res, b, t) = net.tls_read t b in
      elim res [
        | done s ↦
            let (count, rest, t') = read_loop t bufs (sz + s) in
            if s == 0 then (done sz, b ∷ bufs, t) else (count, b ∷ rest, t')
        | failed kind ↦ if sz == 0 then (failed kind, b ∷ bufs, t) else (done sz, b ∷ bufs, t)
      ]

  unfoldable pub read_bufs :
      FiberSock net → List (List ℕ) → IoResult ℕ × List (List ℕ) × FiberSock net
  read_bufs (tcp s) bufs = let (res, bufs, s) = net.tcp_read_bufs s bufs in (res, bufs, tcp s)
  read_bufs (tls s) bufs = let (res, bufs, s) = read_loop s bufs 0 in (res, bufs, tls s)
  read_bufs (udp s) bufs = (failed invalid_input, bufs, udp s)
  read_bufs (listener s) bufs = (failed invalid_input, bufs, listener s)
  read_bufs (tls_temp s) bufs = (failed invalid_input, bufs, tls_temp s)
  read_bufs no_socket bufs = (failed invalid_input, bufs, no_socket)

  -- The loop `while i < bufs.len()` on a TLS socket: the count, `tmp_buf` and the socket.
  unfoldable pub write_loop :
      ℕ → net.Tls → List ℕ → List (List ℕ) → ℕ → ℕ → ℕ → Run (IoResult ℕ × List ℕ × net.Tls)
  write_loop zero t tmp bufs wpos sz i = if ltb i (length bufs) then stuck else ok (done sz, tmp, t)
  write_loop (suc fuel) t tmp bufs wpos sz i =
      if ltb i (length bufs)
      then (do
        cur_buf ← index bufs i
        let cur_buf_len = length cur_buf
        if ltb cur_buf_len 4096 && ltb (wpos + cur_buf_len) (length tmp)
            then write_loop fuel t (splice tmp wpos (wpos + cur_buf_len) cur_buf) bufs
                (wpos + cur_buf_len) sz i
            else (do
              sent ← if ltb 0 wpos then slice tmp 0 wpos else ok cur_buf
              let i = if ltb 0 wpos then i else suc i
              let cur_buf_len = if ltb 0 wpos then wpos else cur_buf_len
              let (res, t) = net.tls_write t sent
              let rest = λ (s : ℕ). write_loop fuel t tmp bufs 0 (sz + s) i
              elim res [
                | done s ↦
                    if s == 0
                    then ok (done sz, tmp, t)
                    else if ltb s cur_buf_len
                    then ok (done (sz + s), tmp, t)
                    else rest s
                | failed kind ↦ if sz == 0 then ok (failed kind, tmp, t) else ok (done sz, tmp, t)
              ]))
      else ok (done sz, tmp, t)

  -- `fuel` bounds the rounds of the loop.
  unfoldable pub write_bufs :
      ℕ → FiberSock net → List ℕ → List (List ℕ) → Run (IoResult ℕ × List ℕ × FiberSock net)
  write_bufs fuel (tcp s) tmp bufs =
      let (res, s) = net.tcp_write_bufs s bufs in ok (res, tmp, tcp s)
  write_bufs fuel (tls s) tmp bufs = do
    (res, tmp, s) ← write_loop fuel s tmp bufs 0 0 0
    ok (res, tmp, tls s)
  write_bufs fuel (udp s) tmp bufs = ok (failed invalid_input, tmp, udp s)
  write_bufs fuel (listener s) tmp bufs = ok (failed invalid_input, tmp, listener s)
  write_bufs fuel (tls_temp s) tmp bufs = ok (failed invalid_input, tmp, tls_temp s)
  write_bufs fuel no_socket tmp bufs = ok (failed invalid_input, tmp, no_socket)

  -- Whether there is something to register with the poll of mio.
  unfoldable pub evented : FiberSock net → IoResult (Unit {0})
  evented (tcp s) = done tt
  evented (udp s) = done tt
  evented (listener s) = done tt
  evented (tls_temp s) = done tt
  evented (tls s) = failed invalid_input
  evented no_socket = failed invalid_input

  unfoldable pub accept_tcp : FiberSock net → IoResult (net.Tcp × IpAddr × ℕ) × FiberSock net
  accept_tcp (listener s) = let (res, s) = net.accept s in (res, listener s)
  accept_tcp (tcp s) = (failed invalid_input, tcp s)
  accept_tcp (udp s) = (failed invalid_input, udp s)
  accept_tcp (tls s) = (failed invalid_input, tls s)
  accept_tcp (tls_temp s) = (failed invalid_input, tls_temp s)
  accept_tcp no_socket = (failed invalid_input, no_socket)

  unfoldable pub read : FiberSock net → List ℕ → IoResult ℕ × List ℕ × FiberSock net
  read (tcp s) buf = let (res, buf, s) = net.tcp_read s buf in (res, buf, tcp s)
  read (udp s) buf = let (res, buf, s) = net.udp_recv s buf in (res, buf, udp s)
  read (tls s) buf = let (res, buf, s) = net.tls_read s buf in (res, buf, tls s)
  read (listener s) buf = (failed invalid_input, buf, listener s)
  read (tls_temp s) buf = (failed invalid_input, buf, tls_temp s)
  read no_socket buf = (failed invalid_input, buf, no_socket)

  unfoldable pub write : FiberSock net → List ℕ → IoResult ℕ × FiberSock net
  write (tcp s) buf = let (res, s) = net.tcp_write s buf in (res, tcp s)
  write (udp s) buf = let (res, s) = net.udp_send s buf in (res, udp s)
  write (tls s) buf = let (res, s) = net.tls_write s buf in (res, tls s)
  write (listener s) buf = (failed invalid_input, listener s)
  write (tls_temp s) buf = (failed invalid_input, tls_temp s)
  write no_socket buf = (failed invalid_input, no_socket)

  unfoldable pub flush : FiberSock net → IoResult (Unit {0}) × FiberSock net
  flush (tcp s) = let (res, s) = net.tcp_flush s in (res, tcp s)
  flush (udp s) = (done tt, udp s)
  flush (tls s) = let (res, s) = net.tls_flush s in (res, tls s)
  flush (listener s) = (failed invalid_input, listener s)
  flush (tls_temp s) = (failed invalid_input, tls_temp s)
  flush no_socket = (failed invalid_input, no_socket)
