-- ===== src/Dns/Resolver.antt =====
-- src/dns.rs: the query of a lookup, and the name servers that it is sent to. The random ids and the
-- sending of a datagram are arguments.
use easyfibers.Prelude.{
  ℕ, zero, suc, ◌+◌, ◌%◌, ◌≤◌, ◌<◌, ◌≡◌, refl, true, List, ◌∷◌, length, take, replicate, All,
}
use easyfibers.Prelude.Outcome.{Outcome, ok, ◌>>=◌}
use easyfibers.Prelude.Slice.{index}
use easyfibers.Dns.{IpAddr}
use easyfibers.Fiber.Net.{ErrorKind, other, IoResult, done, failed}
use easyfibers.DnsParser.Error.{Error}
use easyfibers.DnsParser.ByteOrder.{BigEndian}
use easyfibers.DnsParser.Builder.{new, start, add_question, finish}
use easyfibers.DnsParser.Builder.RoundTrip.{parse-build, query_packet}
use easyfibers.DnsParser.Builder.WriteName.{IsLabel, encoded}
use easyfibers.DnsParser.Enums.QueryClass
use easyfibers.DnsParser.Enums.QueryType
use easyfibers.DnsParser.Name.Spells.{joined}
use easyfibers.DnsParser.Packet

module _ ⦃be : BigEndian⦄ where
  -- The datagram that `lookup_on` sends: both results of the builder are dropped.
  unfoldable pub build_query : List ℕ → ℕ → Outcome Error (List ℕ)
  build_query host id = do
    (_, b) ← start (new (replicate 512 0)) id true
    (_, b) ← add_question b host QueryType.a QueryClass.in_
    ok (take (finish b) b.buf)

  -- The loop of `lookup_on`: the servers in turn, until a datagram is sent. `ids` gives the random
  -- id of a round.
  unfoldable pub lookup_loop :
      ℕ
      → List IpAddr
      → ℕ
      → (IpAddr → List ℕ → IoResult ℕ)
      → (ℕ → ℕ)
      → List ℕ
      → ErrorKind
      → Outcome Error (IoResult (Unit {0}))
  unfolding build_query
  lookup_loop zero srvs pos send ids host last_err = ok (failed last_err)
  lookup_loop (suc rounds) srvs pos send ids host last_err = do
    addr ← index srvs (pos % length srvs)
    datagram ← build_query host (ids pos)
    elim (send addr datagram) [
      | done _ ↦ ok (done tt)
      | failed e ↦ lookup_loop rounds srvs (pos + 1) send ids host e
    ]

  unfoldable pub lookup_on :
      List IpAddr
      → ℕ
      → (IpAddr → List ℕ → IoResult ℕ)
      → (ℕ → ℕ)
      → List ℕ
      → Outcome Error (IoResult (Unit {0}))
  lookup_on srvs pos send ids host = lookup_loop (length srvs) srvs pos send ids host other

  pub parse-build_query :
      (id : ℕ) (p : List ℕ) (ps : List (List ℕ))
      → id < 65536
      → All IsLabel (p ∷ ps)
      → length (encoded (p ∷ ps)) + 17 ≤ 512
      → (datagram : List ℕ) × (build_query (joined (p ∷ ps)) id ≡ ok datagram)
        × (Packet.parse datagram ≡ ok (query_packet id true (p ∷ ps) QueryType.a QueryClass.in_))
  unfolding build_query
  parse-build_query id p ps small labels fits =
      let (b0, b1, started, added, _, parsed) =
        parse-build id small true p ps labels QueryType.a QueryClass.in_ (replicate 512 0) fits in
      (take (finish b1) b1.buf, rw (started, added) refl, parsed)
