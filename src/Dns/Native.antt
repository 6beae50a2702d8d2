-- ===== src/Dns/Native.antt =====
-- src/dns.rs on macOS: what a lookup of the system finds, from the addresses that it lists to the
-- result of `check_result`, and the memory of the request on that way. The message port, the thread
-- and its channel are left out; `read_u16` of byteorder is a parameter.
use easyfibers.Prelude.{
  ℕ, ◌+◌, ◌*◌, ◌/◌, ◌%◌, ◌^◌, Bool, false, List, [], ◌∷◌, Option, none, some, ◌==◌, if◌then◌else◌,
  set, get_elem?,
}
use easyfibers.Prelude.Outcome.{Outcome, ok, err, ◌>>=◌}
use easyfibers.DnsParser.ByteOrder.{BigEndian, read_u16}
use easyfibers.Prelude.Slice.{slice_from}
use easyfibers.Dns.{IpAddr, v4, v6}

-- A `sockaddr`, by its family: the four bytes of `sin_addr` in memory, the bytes of `sin6_addr`, or
-- another family.
pub data SockAddr : Type 0 where
  inet : ℕ → ℕ → ℕ → ℕ → SockAddr
  inet6 : List ℕ → SockAddr
  other_family : SockAddr

pub record ThreadMsg : Type 0 where
  pub id : ℕ
  pub gen : ℕ
  pub resp : IpAddr

-- `IpAddr::V4(Ipv4Addr::new(0,0,0,0))`
abbrev pub unspecified : IpAddr
unspecified = v4 0

-- The requests by their address: `none` once the box of one was dropped.
abbrev pub Memory : Type 0
Memory = List (Option ThreadMsg)

-- What is undefined in Rust.
pub data Misuse : Type 0 where
  use_after_free : Misuse
  double_free : Misuse

abbrev pub Unsafe : Type 0 → Type 0
Unsafe A = Outcome Misuse A

-- The request of a box that has not ended.
abbrev owned : Misuse → Option (Option ThreadMsg) → Unsafe ThreadMsg
owned misuse none = err misuse
owned misuse (some none) = err misuse
owned misuse (some (some req)) = ok req

-- The request of `Box::from_raw`.
unfoldable pub request : Memory → ℕ → Unsafe ThreadMsg
request mem p = owned use_after_free (get_elem? mem p)

-- The end of a box.
unfoldable pub drop_box : Memory → ℕ → Unsafe Memory
drop_box mem p = do _ ← owned double_free (get_elem? mem p); ok (set mem p none)

-- `s_addr` as the processors of macOS load it: the lowest byte is the first.
abbrev s_addr : ℕ → ℕ → ℕ → ℕ → ℕ
s_addr a b c d = a + b * 2 ^ 8 + c * 2 ^ 16 + d * 2 ^ 24

-- `u32::from_be` on these processors: the bytes are swapped.
unfoldable pub from_be : ℕ → ℕ
from_be n =
    n % 2 ^ 8 * 2 ^ 24
    + n / 2 ^ 8 % 2 ^ 8 * 2 ^ 16
    + n / 2 ^ 16 % 2 ^ 8 * 2 ^ 8
    + n / 2 ^ 24 % 2 ^ 8

module _ ⦃be : BigEndian⦄ where
  unfoldable pub read_u16_from : List ℕ → ℕ → Unsafe ℕ
  read_u16_from l i = do s ← slice_from l i; read_u16 s

  -- The address of 16 bytes.
  unfoldable pub in6_addr : List ℕ → Unsafe IpAddr
  unfolding read_u16_from
  in6_addr l = do
    a ← read_u16_from l 0
    b ← read_u16_from l 2
    c ← read_u16_from l 4
    d ← read_u16_from l 6
    e ← read_u16_from l 8
    f ← read_u16_from l 10
    g ← read_u16_from l 12
    h ← read_u16_from l 14
    ok (v6 (a ∷ b ∷ c ∷ d ∷ e ∷ f ∷ g ∷ h ∷ []))

  -- The loop over the addresses: it ends at one of IPv4.
  unfoldable pub resolved : List SockAddr → IpAddr → Unsafe IpAddr
  resolved [] resp = ok resp
  resolved (inet a b c d ∷ addrs) resp = ok (v4 (from_be (s_addr a b c d)))
  resolved (inet6 l ∷ addrs) resp = do ip ← in6_addr l; resolved addrs ip
  resolved (other_family ∷ addrs) resp = resolved addrs resp

  -- `resolv_cb` up to where it sends `info`: the memory, with the response in the request. `error` is
  -- the one of the lookup, `addrs` what the host has, where it has addresses.
  unfoldable pub fill : Memory → ℕ → ℕ → Option (List SockAddr) → Unsafe Memory
  fill mem info error none = do req ← request mem info; ok mem
  fill mem info error (some addrs) = do
    req ← request mem info
    let found = resolved addrs req.resp
    if error == 0
        then (do resp ← found; ok (set mem info (some (record req { resp = resp }))))
        else ok mem

  -- `resolv_cb`: the box of the request ends with it.
  unfoldable pub resolv_cb : Memory → ℕ → ℕ → Option (List SockAddr) → Unsafe Memory
  resolv_cb mem info error addrs = do mem ← fill mem info error addrs; drop_box mem info

-- `req.resp != IpAddr::V4(Ipv4Addr::new(0,0,0,0))`
abbrev pub is_unspecified : IpAddr → Bool
is_unspecified (v4 n) = n == 0
is_unspecified (v6 l) = false

-- What came through the channel is the address of a request, whose box ends here.
unfoldable pub check_result : Memory → Option ℕ → Unsafe (Option (ℕ × ℕ × IpAddr) × Memory)
check_result mem none = ok (none, mem)
check_result mem (some p) = do
  req ← request mem p
  mem ← drop_box mem p
  ok (if is_unspecified req.resp then none else some (req.id, req.gen, req.resp), mem)
