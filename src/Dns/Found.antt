-- ===== src/Dns/Found.antt =====
-- src/dns.rs on macOS: which of the addresses of a host a lookup gives, and how often its
-- request is freed.
use easyfibers.Prelude.{
  ℕ, ◌+◌, ◌*◌, ◌<◌, ◌≡◌, List, [], ◌∷◌, Option, none, some, length, drop, if◌then◌else◌,
}
use easyfibers.Dns.{IpAddr, v4, v6, or_else}
use easyfibers.Dns.Native.{SockAddr, inet, inet6, other_family, ThreadMsg, is_unspecified}

-- The number in the first two bytes.
abbrev word : List ℕ → ℕ
word (a ∷ b ∷ r) = a * 256 + b
word _ = 0

abbrev pub words : List ℕ → List ℕ
words l =
    word l
    ∷ word (drop 2 l)
    ∷ word (drop 4 l)
    ∷ word (drop 6 l)
    ∷ word (drop 8 l)
    ∷ word (drop 10 l)
    ∷ word (drop 12 l)
    ∷ word (drop 14 l)
    ∷ []

-- The first address of IPv4, and the last one of IPv6.
abbrev pub first_v4 : List SockAddr → Option IpAddr
first_v4 [] = none
first_v4 (inet a b c d ∷ addrs) = some (v4 (((a * 256 + b) * 256 + c) * 256 + d))
first_v4 (inet6 l ∷ addrs) = first_v4 addrs
first_v4 (other_family ∷ addrs) = first_v4 addrs

abbrev pub last_v6 : List SockAddr → Option IpAddr
last_v6 [] = none
last_v6 (inet a b c d ∷ addrs) = last_v6 addrs
last_v6 (inet6 l ∷ addrs) = or_else (last_v6 addrs) (some (v6 (words l)))
last_v6 (other_family ∷ addrs) = last_v6 addrs

abbrev pub IsAddr : SockAddr → Type 0
IsAddr (inet a b c d) = (a < 256) × (b < 256) × (c < 256) × (d < 256)
IsAddr (inet6 l) = length l ≡ 16
IsAddr other_family = Unit {0}

abbrev chosen : List SockAddr → Option IpAddr
chosen addrs = or_else (first_v4 addrs) (last_v6 addrs)

abbrev given : Option IpAddr → IpAddr → IpAddr
given none resp = resp
given (some ip) resp = ip

-- What the fiber that asked is told.
abbrev pub reported : ThreadMsg → Option IpAddr → Option (ℕ × ℕ × IpAddr)
reported req none = none
reported req (some ip) = if is_unspecified ip then none else some (req.id, req.gen, ip)
