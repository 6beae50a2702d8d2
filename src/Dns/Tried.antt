-- ===== src/Dns/Tried.antt =====
-- src/dns.rs: which name servers `lookup_on` tries.
use easyfibers.Prelude.{
  ℕ, zero, suc, ◌+◌, ◌%◌, ◌≤◌, ◌<◌, ◌≡◌, refl, subst, List, [], ◌∷◌, some, length, get_elem?,
  get_elem?_in, arith, All,
}
use easyfibers.Prelude.Outcome.{ok}
use easyfibers.Prelude.Slice.{index}
use easyfibers.DnsParser.ByteOrder.{BigEndian}
use easyfibers.DnsParser.Builder.WriteName.{IsLabel, encoded}
use easyfibers.DnsParser.Name.Spells.{joined}
use easyfibers.Fiber.Net.{ErrorKind, other, IoResult, done, failed}
use easyfibers.Dns.{IpAddr}
use easyfibers.Dns.Resolver.{build_query, lookup_loop, lookup_on, parse-build_query}

module _ ⦃be : BigEndian⦄ (srvs : List IpAddr) (send : IpAddr → List ℕ → IoResult ℕ) (ids : ℕ → ℕ)
    (host : List ℕ) where
  -- What came of sending the query to the server of the place `i`, from the front on once more
  -- behind the last server.
  pub record Sent (i : ℕ) (res : IoResult ℕ) : Type 0 where
    pub addr : IpAddr
    pub datagram : List ℕ
    pub server : get_elem? srvs (i % length srvs) ≡ some addr
    pub query : build_query host (ids i) ≡ ok datagram
    pub result : send addr datagram ≡ res

  -- A server took the query after those before it refused; or all refused, with an error of the last.
  pub data Tried (rounds pos : ℕ) (last_err : ErrorKind) : IoResult (Unit {0}) → Type 0 where
    sent :
        (k n : ℕ)
        → k < rounds
        → ((j : ℕ) → j < k → (e : ErrorKind) × Sent (pos + j) (failed e))
        → Sent (pos + k) (done n)
        → Tried rounds pos last_err (done tt)
    no_server : rounds ≡ 0 → Tried rounds pos last_err (failed last_err)
    refused :
        (k : ℕ) (e : ErrorKind)
        → suc k ≡ rounds
        → ((j : ℕ) → j < k → (e : ErrorKind) × Sent (pos + j) (failed e))
        → Sent (pos + k) (failed e)
        → Tried rounds pos last_err (failed e)

  before :
      (pos k : ℕ) (e : ErrorKind)
      → Sent pos (failed e)
      → ((j : ℕ) → j < k → (e : ErrorKind) × Sent (pos + 1 + j) (failed e))
      → (j : ℕ) → j < suc k
      → (e : ErrorKind) × Sent (pos + j) (failed e)
  before pos k e here later zero lt =
      let same : pos ≡ pos + 0 = omega arith in (e, subst (λ (i : ℕ). Sent i (failed e)) same here)
  before pos k e here later (suc j) lt =
      let same : pos + 1 + j ≡ pos + suc j = omega arith in
      subst (λ (i : ℕ). (e : ErrorKind) × Sent i (failed e)) same (later j (omega arith))

  -- One more server in front that refused.
  Tried-refused :
      {rounds pos : ℕ} {last_err e : ErrorKind} {answer : IoResult (Unit {0})}
      → Sent pos (failed e)
      → Tried rounds (pos + 1) e answer
      → Tried (suc rounds) pos last_err answer
  Tried-refused {rounds} {pos} {last_err} {e} here (sent k n lt later last) =
      sent (suc k) n (omega arith) (before pos k e here later)
        (subst (λ (i : ℕ). Sent i (done n)) (omega arith) last)
  Tried-refused {rounds} {pos} {last_err} {e} here (no_server none) =
      let same : pos ≡ pos + 0 = omega arith in
      refused 0 e (omega arith) (λ j lt. absurd (omega arith))
        (subst (λ (i : ℕ). Sent i (failed e)) same here)
  Tried-refused {rounds} {pos} {last_err} {e} here (refused k e' all later last) =
      refused (suc k) e' (omega arith) (before pos k e here later)
        (subst (λ (i : ℕ). Sent i (failed e')) (omega arith) last)

  -- A loop that returns, with what it tried.
  abbrev Tries : ℕ → ℕ → ErrorKind → Type 0
  Tries rounds pos last_err =
      (answer : IoResult (Unit {0})) × (lookup_loop rounds srvs pos send ids host last_err
        ≡ ok answer)
      × Tried rounds pos last_err answer

  next-Tries :
      (rounds pos : ℕ) (last_err : ErrorKind) (addr : IpAddr) (datagram : List ℕ) (res : IoResult ℕ)
      → get_elem? srvs (pos % length srvs) ≡ some addr
      → build_query host (ids pos) ≡ ok datagram
      → send addr datagram ≡ res
      → ((e : ErrorKind) → Tries rounds (pos + 1) e)
      → Tries (suc rounds) pos last_err
  unfolding lookup_loop index
  next-Tries rounds pos last_err addr datagram (done n) server query result again =
      let same : pos ≡ pos + 0 = omega arith in
      let here : Sent pos (done n) = record {
        addr = addr;
        datagram = datagram;
        server = server;
        query = query;
        result = result;
      } in
      (
        done tt,
        rw (server, query, result) refl,
        sent 0 n (omega arith) (λ j lt. absurd (omega arith))
            (subst (λ (i : ℕ). Sent i (done n)) same here),
      )
  next-Tries rounds pos last_err addr datagram (failed e) server query result again =
      let (answer, returns, tried) = again e in
      let here : Sent pos (failed e) = record {
        addr = addr;
        datagram = datagram;
        server = server;
        query = query;
        result = result;
      } in
      (answer, rw (server, query, result) returns, Tried-refused here tried)

  lookup_loop-Tried :
      (rounds pos : ℕ) (last_err : ErrorKind)
      → 0 < length srvs
      → ((i : ℕ) → (datagram : List ℕ) × (build_query host (ids i) ≡ ok datagram))
      → Tries rounds pos last_err
  unfolding lookup_loop
  lookup_loop-Tried zero pos last_err some_srvs builds = (failed last_err, refl, no_server refl)
  lookup_loop-Tried (suc rounds) pos last_err some_srvs builds =
      let (addr, server) = get_elem?_in srvs (pos % length srvs) (omega arith) in
      let (datagram, query) = builds pos in
      next-Tries rounds pos last_err addr datagram (send addr datagram) server query refl
        (λ e. lookup_loop-Tried rounds (pos + 1) e some_srvs builds)

-- `lookup_on` never panics for a host of valid labels that fits the buffer. From the server of the
-- place `pos` on it sends the query to the servers in turn, each at most once: it is `Ok` where one
-- took the query, and those before it refused; it is an error where all refused, and then that of the
-- last one, or the kind `Other` where there is no server.
pub lookup_on-Tried :
    ⦃be : BigEndian⦄ (srvs : List IpAddr) (pos : ℕ) (send : IpAddr → List ℕ → IoResult ℕ)
    (ids : ℕ → ℕ) (p : List ℕ) (ps : List (List ℕ))
    → ((i : ℕ) → ids i < 65536)
    → All IsLabel (p ∷ ps)
    → length (encoded (p ∷ ps)) + 17 ≤ 512
    → (answer : IoResult (Unit {0})) × (lookup_on srvs pos send ids (joined (p ∷ ps)) ≡ ok answer)
      × Tried srvs send ids (joined (p ∷ ps)) (length srvs) pos other answer
unfolding lookup_on lookup_loop
lookup_on-Tried [] pos send ids p ps small labels fits = (failed other, refl, no_server refl)
lookup_on-Tried (a ∷ srvs) pos send ids p ps small labels fits =
    lookup_loop-Tried (a ∷ srvs) send ids (joined (p ∷ ps)) (length (a ∷ srvs)) pos other
      (omega arith)
      (λ i.
        let (datagram, e, _) = parse-build_query (ids i) p ps (small i) labels fits in
        (datagram, e))
