-- ===== src/Dns/Answer.antt =====
-- src/dns.rs: what `dns_parse` does with every datagram.
use easyfibers.Prelude.{
  Option-cases, ℕ, ◌≡◌, ◌↔◌, refl, subst, List, [], ◌∷◌, none, some, All, IsByte, ◌⊎◌, inl, inr, ap,
}
use easyfibers.Prelude.Outcome.{Outcome, ok, err, panic, Ensures, value, error}
use easyfibers.DnsParser.Error.{Error}
use easyfibers.DnsParser.ByteOrder.{BigEndian}
use easyfibers.DnsParser.Packet
use easyfibers.DnsParser.Packet.{Packet, ResourceRecord}
use easyfibers.DnsParser.Packet.Safety.{Counted, parse-Counted}
use easyfibers.DnsParser.RrData.{RrData}
use easyfibers.Dns.{IpAddr, v4, v6, address, first_address, answer, dns_parse}

-- Records of type A and AAAA have the address that they hold; no other record has one.
pub data HasAddress : RrData → IpAddr → Type 0 where
  of_a : (ip : ℕ) → HasAddress (RrData.a ip) (v4 ip)
  of_aaaa : (ip : List ℕ) → HasAddress (RrData.aaaa ip) (v6 ip)

-- The address `ip` is that of the first answer that has one.
pub data IsFirst (ip : IpAddr) : List ResourceRecord → Type 0 where
  here :
      {r : ResourceRecord} {rs : List ResourceRecord}
      → HasAddress r.rr_data ip
      → IsFirst ip (r ∷ rs)
  later :
      {r : ResourceRecord} {rs : List ResourceRecord}
      → ((other : IpAddr) → ¬ HasAddress r.rr_data other)
      → IsFirst ip rs
      → IsFirst ip (r ∷ rs)

address-HasAddress : (d : RrData) {ip : IpAddr} → address d ≡ some ip → HasAddress d ip
address-HasAddress (RrData.a ip) e = subst (HasAddress (RrData.a ip)) (cc) (of_a ip)
address-HasAddress (RrData.aaaa ip) e = subst (HasAddress (RrData.aaaa ip)) (cc) (of_aaaa ip)
address-HasAddress (RrData.cname _) e = cc
address-HasAddress (RrData.ns _) e = cc
address-HasAddress (RrData.srv _ _ _ _) e = cc
address-HasAddress (RrData.soa _) e = cc
address-HasAddress (RrData.ptr _) e = cc
address-HasAddress (RrData.mx _ _) e = cc
address-HasAddress (RrData.txt _) e = cc
address-HasAddress (RrData.unknown _) e = cc

HasAddress-address : {d : RrData} {ip : IpAddr} → HasAddress d ip → address d ≡ some ip
HasAddress-address (of_a ip) = refl
HasAddress-address (of_aaaa ip) = refl

address-cases :
    (d : RrData)
    → ((ip : IpAddr) × (address d ≡ some ip) × HasAddress d ip)
      ⊎ ((address d ≡ none) × ((other : IpAddr) → ¬ HasAddress d other))
address-cases d = elim (Option-cases (address d)) [
  | inl h ↦ inr (h, λ other k. let e = HasAddress-address k in cc)
  | inr (ip, h) ↦ inl (ip, h, address-HasAddress d h)
]

first_address-IsFirst :
    (rs : List ResourceRecord) {ip : IpAddr} → first_address rs ≡ some ip → IsFirst ip rs
unfolding first_address
first_address-IsFirst [] e = cc
first_address-IsFirst (r ∷ rs) {ip} e = elim (address-cases r.rr_data) [
  | inl (a, h, has) ↦ let k : a ≡ ip = cc (rw h at e) in here (subst (HasAddress r.rr_data) k has)
  | inr (h, lacks) ↦ later lacks (first_address-IsFirst rs (rw h at e))
]

IsFirst-first_address :
    {ip : IpAddr} {rs : List ResourceRecord} → IsFirst ip rs → first_address rs ≡ some ip
unfolding first_address
IsFirst-first_address (here has) = rw (HasAddress-address has) refl
IsFirst-first_address (later {r} lacks i) = elim (address-cases r.rr_data) [
  | inl (a, h, has) ↦ absurd (lacks a has)
  | inr (h, _) ↦ rw h (IsFirst-first_address i)
]

answer-IsFirst :
    {m : Outcome Error Packet}
    → Ensures Counted m
    → ((p : Packet) × (m ≡ ok p)
        × ((ip : IpAddr) → (answer m ≡ ok (some ip)) ↔ IsFirst ip p.answers))
      ⊎ ((e : Error) × (m ≡ err e) × (answer m ≡ panic))
unfolding answer
answer-IsFirst (value {a = p} c) = inl (
  p,
  refl,
  λ ip. (λ h. first_address-IsFirst p.answers (cc), λ i. ap ok (IsFirst-first_address i)),
)
answer-IsFirst (error {e}) = inr (e, refl, refl)

module _ ⦃be : BigEndian⦄ (buf : List ℕ) (bytes : All IsByte buf) where
  -- On bytes that are a packet `dns_parse` answers with the address of the first answer that has
  -- one, and with an address in no other case. On bytes that are refused by the parser it panics.
  pub dns_parse_lem :
      ((p : Packet) × (Packet.parse buf ≡ ok p)
        × ((ip : IpAddr) → (dns_parse buf ≡ ok (some ip)) ↔ IsFirst ip p.answers))
      ⊎ ((e : Error) × (Packet.parse buf ≡ err e) × (dns_parse buf ≡ panic))
  unfolding dns_parse
  dns_parse_lem = answer-IsFirst (parse-Counted buf bytes)
