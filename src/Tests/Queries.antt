-- ===== src/Tests/Queries.antt =====
-- src/dns_parser/builder.rs, src/dns_parser/header.rs and src/dns_parser/enums.rs on concrete values.
use easyfibers.Prelude.{
  if◌then◌else◌, replicate, ◌==◌, ℕ, zero, suc, ◌+◌, ◌≡◌, refl, true, false, List, [], ◌∷◌, ◌++◌,
  some, arith, All, length,
}
use easyfibers.Prelude.Outcome.{ok, panic}
use easyfibers.DnsParser.Error.{Error}
use easyfibers.DnsParser.Builder.{Builder, write_name}
use easyfibers.DnsParser.Builder.WriteName.{IsLabel, encoded, write_name-encoded, write_name-full}
use easyfibers.DnsParser.Enums.Opcode
use easyfibers.DnsParser.Enums.ResponseCode.{ResponseCode}
use easyfibers.DnsParser.Enums.QueryType
use easyfibers.DnsParser.Enums.QueryClass
use easyfibers.DnsParser.Header
use easyfibers.DnsParser.Header.{Header}
use easyfibers.DnsParser.Header.Bytes.{IsHeader, header_bytes}
use easyfibers.DnsParser.Header.RoundTrip.{parse-write, without_dnssec}
use easyfibers.DnsParser.Header.Truncated.{set_truncated_lem, only_truncated}
use easyfibers.DnsParser.Name.Spells.{joined}
use easyfibers.DnsParser.Packet
use easyfibers.Dns.{v4}
use easyfibers.Dns.Resolver.{lookup_on}
use easyfibers.Dns.Servers.{resolv_parse, nameserver, lines, split_whitespace}
use easyfibers.Dns.{IpAddr, v4, v6}
use easyfibers.Dns.Tried.{Tried, lookup_on-Tried}
use easyfibers.Dns.Native.{SockAddr, ThreadMsg, inet, inet6, unspecified}
use easyfibers.Fiber.Net.{IoResult, done, failed, other}
use easyfibers.Tests.Network.{big_endian, example, com_label}

-- The labels of example.com.
labels-IsLabel : All IsLabel (example ∷ com_label ∷ [])
labels-IsLabel = (
  record {
    nonempty = omega arith;
    short = omega arith;
    ascii = (
      omega arith,
      (omega arith, (omega arith, (omega arith, (omega arith, (omega arith, (omega arith, tt)))))),
    );
    no_dot = (
      λ h. omega arith,
      (
        λ h. omega arith,
        (
          λ h. omega arith,
          (λ h. omega arith, (λ h. omega arith, (λ h. omega arith, (λ h. omega arith, tt)))),
        ),
      ),
    );
  },
  (
    record {
      nonempty = omega arith;
      short = omega arith;
      ascii = (omega arith, (omega arith, (omega arith, tt)));
      no_dot = (λ h. omega arith, (λ h. omega arith, (λ h. omega arith, tt)));
    },
    tt,
  ),
)

abbrev zeros : ℕ → List ℕ
zeros zero = []
zeros (suc n) = 0 ∷ zeros n

-- A header with every flag set, of a refused response.
abbrev all_flags : Header
all_flags = record {
  id = 1573;
  query = false;
  opcode = Opcode.reserved 5;
  authoritative = true;
  truncated = true;
  recursion_desired = true;
  recursion_available = true;
  authenticated_data = true;
  checking_disabled = true;
  response_code = ResponseCode.refused;
  questions = 1;
  answers = 2;
  nameservers = 3;
  additional = 4;
}

all_flags-IsHeader : IsHeader all_flags
all_flags-IsHeader = record {
  id = omega arith;
  opcode = omega arith;
  response_code = tt;
  questions = omega arith;
  answers = omega arith;
  nameservers = omega arith;
  additional = omega arith;
}

write_name-encoded_example :
    write_name (zeros 20) 2 (joined (example ∷ com_label ∷ []))
    ≡ ok (
      some (2 + length (encoded (example ∷ com_label ∷ [])) + 1),
      (zeros 2 ++ encoded (example ∷ com_label ∷ [])) ++ (0 ∷ zeros 5),
    )
unfolding encoded
write_name-encoded_example =
    write_name-encoded example (com_label ∷ []) labels-IsLabel (zeros 2) (zeros 12) 2 refl refl 0
      (zeros 5)

write_name-full_example : write_name (zeros 14) 2 (joined (example ∷ com_label ∷ [])) ≡ panic
unfolding encoded
write_name-full_example =
    write_name-full example (com_label ∷ []) labels-IsLabel (zeros 2) (zeros 12) 2 refl refl

parse-write_example :
    (out : List ℕ) × (Header.write {E = Error} all_flags (zeros 12) ≡ ok out)
    × (length out ≡ 12)
    × (Header.parse (out ++ (7 ∷ [])) ≡ ok (without_dnssec all_flags))
parse-write_example = parse-write all_flags all_flags-IsHeader (zeros 12) (7 ∷ []) refl

set_truncated_lem_example :
    (out : List ℕ) × (Header.set_truncated {E = Error} (header_bytes all_flags ++ (7 ∷ []))
      ≡ ok out)
    × (Header.parse out ≡ ok (only_truncated all_flags))
set_truncated_lem_example = set_truncated_lem all_flags all_flags-IsHeader (7 ∷ [])

-- `nameserver 1`, a comment, and `nameserver` with no address.
resolv_parse_run :
    resolv_parse
      (λ w. some (v4 (length w)))
      (nameserver ++ (b' ' ∷ b'1' ∷ 13 ∷ 10 ∷ b'#' ∷ b' ' ∷ b'x' ∷ 10 ∷ (nameserver ++ (10 ∷ []))))
    ≡ v4 1 ∷ []
unfolding resolv_parse lines split_whitespace
resolv_parse_run = refl

-- Two servers, of which the first refuses.
abbrev two_servers : List IpAddr
two_servers = v4 0x0808_0808 ∷ v4 0x0808_0404 ∷ []

abbrev refuses : IpAddr → List ℕ → IoResult ℕ
refuses (v4 n) datagram = if n == 0x0808_0808 then failed other else done (length datagram)
refuses (v6 l) datagram = failed other

lookup_on-Tried_example :
    (answer : IoResult (Unit {0})) × (lookup_on two_servers 4 refuses
        (λ i. 7)
        (joined (example ∷ com_label ∷ []))
      ≡ ok answer)
    × Tried two_servers refuses (λ i. 7) (joined (example ∷ com_label ∷ [])) 2 4 other answer
unfolding encoded
lookup_on-Tried_example =
    lookup_on-Tried two_servers 4 refuses (λ i. 7) example (com_label ∷ []) (λ i. omega arith)
      labels-IsLabel (omega arith)

abbrev lookup_of_9 : ThreadMsg
lookup_of_9 = record { id = 9; gen = 2; resp = unspecified }

abbrev listed : List SockAddr
listed = inet6 (replicate 16 1) ∷ inet 8 8 4 4 ∷ []
