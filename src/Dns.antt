-- ===== src/Dns.antt =====
-- src/dns.rs: `dns_parse`, the address that a DNS answer gives.
pub mod Answer
pub mod Resolver
pub mod Servers
pub mod Lookup
pub mod Tried
pub mod Native
pub mod Found
use easyfibers.Prelude.{ℕ, List, [], ◌∷◌, Option, none, some}
use easyfibers.Prelude.Outcome.{Outcome, ok, err, panic, stuck}
use easyfibers.DnsParser.Error.{Error}
use easyfibers.DnsParser.ByteOrder.{BigEndian}
use easyfibers.DnsParser.Packet
use easyfibers.DnsParser.Packet.{Packet, ResourceRecord}
use easyfibers.DnsParser.RrData.{RrData}

pub data IpAddr : Type 0 where
  v4 : ℕ → IpAddr
  v6 : List ℕ → IpAddr

-- The `match` on one answer.
abbrev pub address : RrData → Option IpAddr
address (RrData.a ip) = some (v4 ip)
address (RrData.aaaa ip) = some (v6 ip)
address _ = none

abbrev pub or_else : {A : Type 0} → Option A → Option A → Option A
or_else (some x) y = some x
or_else none y = y

-- The loop over the answers.
unfoldable pub first_address : List ResourceRecord → Option IpAddr
first_address [] = none
first_address (r ∷ rs) = or_else (address r.rr_data) (first_address rs)

-- `Packet::parse(buf).unwrap()`: an error panics.
answer : Outcome Error Packet → Outcome Error (Option IpAddr)
answer (ok packet) = ok (first_address packet.answers)
answer (err e) = panic
answer panic = panic
answer stuck = stuck

unfoldable pub dns_parse : ⦃be : BigEndian⦄ → List ℕ → Outcome Error (Option IpAddr)
unfolding answer
dns_parse ⦃be⦄ buf = answer (Packet.parse buf)
