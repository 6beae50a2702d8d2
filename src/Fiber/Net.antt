-- ===== src/Fiber/Net.antt =====
-- What src/fiber.rs calls of mio and native_tls, as a parameter: the kinds of sockets, and what is
-- done with one. A call returns the socket that it leaves; one that fills a buffer returns the buffer.
use easyfibers.Prelude.{ℕ, List}
use easyfibers.Dns.{IpAddr}

-- `io::ErrorKind`: the kinds that the source names, and the others by a number.
pub data ErrorKind : Type 0 where
  would_block : ErrorKind
  interrupted : ErrorKind
  not_connected : ErrorKind
  timed_out : ErrorKind
  invalid_input : ErrorKind
  other : ErrorKind
  unnamed : ℕ → ErrorKind

-- `io::Result`; the text of an error is left out.
pub data IoResult (A : Type 0) : Type 0 where
  done : A → IoResult A
  failed : ErrorKind → IoResult A

-- `Result<TlsStream, HandshakeError>`
pub data Shaken (Tls Handshake : Type 0) : Type 0 where
  shaken : Tls → Shaken Tls Handshake
  interrupted_at : Handshake → Shaken Tls Handshake
  refused : Shaken Tls Handshake

pub record NetApi : Type 1 where
  pub Tcp : Type 0
  pub Udp : Type 0
  pub Listener : Type 0
  pub Tls : Type 0
  pub Handshake : Type 0
  pub Connector : Type 0
  pub Acceptor : Type 0
  pub tcp_connect : IpAddr → ℕ → IoResult Tcp
  pub udp_connect : Udp → IpAddr → ℕ → IoResult Udp
  pub tcp_read : Tcp → List ℕ → IoResult ℕ × List ℕ × Tcp
  pub tcp_read_bufs : Tcp → List (List ℕ) → IoResult ℕ × List (List ℕ) × Tcp
  pub tcp_write : Tcp → List ℕ → IoResult ℕ × Tcp
  pub tcp_write_bufs : Tcp → List (List ℕ) → IoResult ℕ × Tcp
  pub tcp_flush : Tcp → IoResult (Unit {0}) × Tcp
  pub udp_recv : Udp → List ℕ → IoResult ℕ × List ℕ × Udp
  pub udp_send : Udp → List ℕ → IoResult ℕ × Udp
  -- The `SocketAddr` of the other side is an address and a port.
  pub accept : Listener → IoResult (Tcp × IpAddr × ℕ) × Listener
  pub tls_read : Tls → List ℕ → IoResult ℕ × List ℕ × Tls
  pub tls_write : Tls → List ℕ → IoResult ℕ × Tls
  pub tls_flush : Tls → IoResult (Unit {0}) × Tls
  pub tls_connect : Connector → List ℕ → Tcp → Shaken Tls Handshake
  pub tls_accept : Acceptor → Tcp → Shaken Tls Handshake
  pub handshake : Handshake → Shaken Tls Handshake
