-- ===== src/Fiber/Int.antt =====
-- src/fiber.rs: what the runner keeps of a fiber. A `Transfer` is whether there is one, a stack its
-- size; the host of `ConnectParam` is its text. `Func` is the type of fiber functions.
use easyfibers.Prelude.{ℕ, List, Option, Bool}
use easyfibers.Fiber.Net.{IoResult, done, failed, NetApi}
use easyfibers.Fiber.Sock.{FiberSock, evented}

pub data FiberState : Type 0 where
  closed : FiberState
  stacked : FiberState
  unstacked : FiberState

-- The sets of `mio::Ready` that the source makes.
pub data Ready : Type 0 where
  nothing : Ready
  readable : Ready
  writable : Ready

module _ ⦃net : NetApi⦄ where
  pub data SocketType : Type 0 where
    by_tcp : SocketType
    by_udp : net.Udp → SocketType

  pub record ConnectParam : Type 0 where
    pub port : ℕ
    pub st : SocketType
    pub host : List ℕ

  pub record FiberInt (P R Func : Type 0) : Type 0 where
    pub runner : ℕ
    pub ready : Ready
    pub param : Option P
    pub state : FiberState
    pub me : ℕ
    pub generation : ℕ
    pub func : Option Func
    pub connect_param : Option ConnectParam
    pub sock : FiberSock net
    pub t : Bool
    pub stack : Option ℕ
    pub parent : Option ℕ
    pub children : List ℕ
    pub result : Option R
    pub wtoken : Option ℕ
    pub timeout : Option ℕ
    pub timed_out : ℕ

-- What `Poll::register` and `reregister` of mio answer for a socket, a token and an interest.
pub record Registry ⦃net : NetApi⦄ : Type 0 where
  pub register : FiberSock net → ℕ → Ready → IoResult (Unit {0})
  pub reregister : FiberSock net → ℕ → Ready → IoResult (Unit {0})

module _ ⦃net : NetApi⦄ ⦃registry : Registry⦄ {P R Func : Type 0} where
  abbrev answer : FiberInt P R Func → Ready → IoResult (Unit {0})
  answer f rdy = elim f.ready [
    | nothing ↦ registry.register f.sock f.me rdy
    | readable ↦ registry.reregister f.sock f.me rdy
    | writable ↦ registry.reregister f.sock f.me rdy
  ]

  unfoldable pub register : FiberInt P R Func → Ready → IoResult (Unit {0}) × FiberInt P R Func
  register f rdy = elim (evented f.sock) [
    | failed kind ↦ (failed kind, f)
    | done _ ↦ (answer f rdy, record f { ready = rdy })
  ]
