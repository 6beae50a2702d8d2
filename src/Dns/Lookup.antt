-- ===== src/Dns/Lookup.antt =====
-- src/dns.rs: the lookups where the system has no asynchronous ones. The sockets, what is sent through
-- them, and the random ids are parameters (`Names`).
use easyfibers.Prelude.{ℕ, List, [], ◌∷◌, Option, none, some}
use easyfibers.Prelude.Outcome.{Outcome, ok, ◌>>=◌}
use easyfibers.DnsParser.Error.{Error}
use easyfibers.DnsParser.ByteOrder.{BigEndian}
use easyfibers.Fiber.Net.{IoResult, done, failed, NetApi}
use easyfibers.Dns.{IpAddr, v4, v6}
use easyfibers.Dns.Resolver.{lookup_on}
use easyfibers.Dns.Servers.{get_dns_servers}

pub record Dns : Type 0 where
  pub srvs : List IpAddr

-- `UdpSocket::bind` at an address and a port, `UdpSocket::send_to` at the port 53, and
-- `rand::random`.
pub record Names ⦃net : NetApi⦄ : Type 0 where
  pub bind : IpAddr → ℕ → IoResult net.Udp
  pub send : net.Udp → IpAddr → List ℕ → IoResult ℕ
  pub ids : ℕ → ℕ

-- `parse` is `str::parse` of an address, `contents` the text of /etc/resolv.conf.
unfoldable pub new : (List ℕ → Option IpAddr) → Option (List ℕ) → Dns
unfolding get_dns_servers
new parse contents = record { srvs = get_dns_servers parse contents }

module _ ⦃net : NetApi⦄ ⦃be : BigEndian⦄ ⦃names : Names⦄ where
  unfoldable pub get_socket_v4 : Dns → IoResult net.Udp
  get_socket_v4 dns = names.bind (v4 0) 0

  unfoldable pub get_socket_v6 : Dns → IoResult net.Udp
  get_socket_v6 dns = names.bind (v6 (0 ∷ 0 ∷ 0 ∷ 0 ∷ 0 ∷ 0 ∷ 0 ∷ 0 ∷ [])) 0

  -- A lookup over the socket that was bound, if one was, and otherwise by `next`.
  unfoldable pub first_lookup :
      Dns
      → IoResult net.Udp
      → List ℕ
      → Outcome Error (IoResult (Option net.Udp))
      → Outcome Error (IoResult (Option net.Udp))
  first_lookup dns (failed _) host next = next
  first_lookup dns (done sock) host next = do
    res ← lookup_on dns.srvs 0 (names.send sock) names.ids host
    elim res [ done _ ↦ ok (done (some sock)) | failed _ ↦ next ]

  unfoldable pub last_lookup :
      Dns → IoResult net.Udp → List ℕ → Outcome Error (IoResult (Option net.Udp))
  last_lookup dns (failed e) host = ok (failed e)
  last_lookup dns (done s) host = do
    res ← lookup_on dns.srvs 0 (names.send s) names.ids host
    elim res [ done _ ↦ ok (done (some s)) | failed e ↦ ok (failed e) ]

  -- The first try is over IPv4, the other one over IPv6.
  unfoldable pub start_lookup : Dns → List ℕ → Outcome Error (IoResult (Option net.Udp))
  start_lookup dns host =
      first_lookup dns (get_socket_v4 dns) host (last_lookup dns (get_socket_v6 dns) host)

-- There is no thread that looks up.
unfoldable pub check_result : Dns → Option (ℕ × ℕ × IpAddr)
check_result dns = none
