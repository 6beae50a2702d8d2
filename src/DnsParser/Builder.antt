-- ===== src/DnsParser/Builder.antt =====
-- src/dns_parser/builder.rs: writing a query. A method returns the builder and whether it was `Ok`: the
-- caller goes on with the same builder after an `Err`, so what an `Err` leaves behind is modelled.
pub mod WriteName
pub mod Query
pub mod RoundTrip
use easyfibers.Prelude.{
  ℕ, zero, suc, ◌+◌, ◌%◌, not, Bool, true, false, ◌||◌, List, [], ◌∷◌, ◌++◌, Option, none, some,
  ◌==◌, leb, ltb, if◌then◌else◌, length, take, drop,
}
use easyfibers.Prelude.Outcome.{Outcome, ok, err, panic, stuck, ◌>>=◌}
use easyfibers.Prelude.Slice.{slice, slice_from, splice, assign, or_panic}
use easyfibers.DnsParser.Error.{Error}
use easyfibers.DnsParser.ByteOrder.{BigEndian, read_u16_at, write_u16_at}
use easyfibers.DnsParser.Enums.Opcode
use easyfibers.DnsParser.Enums.QueryClass
use easyfibers.DnsParser.Enums.QueryClass.{QueryClass}
use easyfibers.DnsParser.Enums.QueryType
use easyfibers.DnsParser.Enums.QueryType.{QueryType}
use easyfibers.DnsParser.Enums.ResponseCode
use easyfibers.DnsParser.Header
use easyfibers.DnsParser.Header.{Header}

pub record Builder : Type 0 where
  pub buf : List ℕ
  pub off : ℕ

unfoldable pub new : List ℕ → Builder
new buf = record { buf = buf; off = 0 }

unfoldable pub finish : Builder → ℕ
finish b = b.off

-- `str::split` at a byte: one part more than there are separators.
abbrev cons_head : ℕ → List (List ℕ) → List (List ℕ)
cons_head c [] = (c ∷ []) ∷ []
cons_head c (p ∷ ps) = (c ∷ p) ∷ ps

unfoldable pub split : ℕ → List ℕ → List (List ℕ)
split sep [] = [] ∷ []
split sep (c ∷ cs) = if c == sep then [] ∷ split sep cs else cons_head c (split sep cs)

abbrev pub all_zero : List ℕ → Bool
all_zero [] = true
all_zero (zero ∷ xs) = all_zero xs
all_zero (suc x ∷ xs) = false

-- The header that `start` writes.
abbrev pub query_header : ℕ → Bool → Header
query_header id recursion = record {
  id = id;
  query = true;
  opcode = Opcode.standard_query;
  authoritative = false;
  truncated = false;
  recursion_desired = recursion;
  recursion_available = false;
  authenticated_data = false;
  checking_disabled = false;
  response_code = ResponseCode.no_error;
  questions = 0;
  answers = 0;
  nameservers = 0;
  additional = 0;
}

-- The loop of `write_name` over the parts, and the root label after it. The new offset is `none`
-- where the source returns `Err`.
unfoldable pub write_parts : List (List ℕ) → List ℕ → ℕ → Outcome Error (Option ℕ × List ℕ)
write_parts [] buf off = do buf ← assign buf off 0; ok (some (off + 1), buf)
write_parts (part ∷ parts) buf off =
    if leb 63 (length part) || ltb (length buf) (length part + off + 1) then ok (none, buf) else do
      buf ← assign buf off (length part % 256)
      let off = off + 1
      _ ← slice buf off (off + length part)
      write_parts parts (splice buf off (off + length part) part) (off + length part)

unfoldable pub write_name : List ℕ → ℕ → List ℕ → Outcome Error (Option ℕ × List ℕ)
write_name buf off name = write_parts (split b'.' name) buf off

module _ ⦃be : BigEndian⦄ where
  -- `BigEndian::write_u16(&mut buf[off..], n)`
  unfoldable pub write_u16_from : List ℕ → ℕ → ℕ → Outcome Error (List ℕ)
  write_u16_from buf off n = do
    s ← slice_from buf off
    s' ← or_panic (be.write_u16 s n)
    ok (take off buf ++ s')

  unfoldable pub start : Builder → ℕ → Bool → Outcome Error (Bool × Builder)
  start b id recursion = if leb (length b.buf) 12 then ok (false, b) else do
    front ← slice b.buf 0 12
    front ← Header.write (query_header id recursion) front
    ok (true, record { buf = splice b.buf 0 12 front; off = 12 })

  -- What follows the name, from the offset behind it.
  write_codes : List ℕ → ℕ → QueryType → QueryClass → Outcome Error (Bool × Builder)
  write_codes buf off qtype qclass = do
    buf ← write_u16_from buf off (QueryType.to_u16 qtype)
    let off = off + 2
    buf ← write_u16_from buf off (QueryClass.to_u16 qclass)
    let off = off + 2
    oldq ← read_u16_at buf 4 6
    if oldq == 65535
        then ok (false, record { buf = buf; off = off })
        else do buf ← write_u16_at buf 4 6 (oldq + 1); ok (true, record { buf = buf; off = off })

  unfoldable pub add_question :
      Builder → List ℕ → QueryType → QueryClass → Outcome Error (Bool × Builder)
  unfolding write_codes
  add_question b qname qtype qclass = do
    counts ← slice b.buf 6 12
    if not (all_zero counts) then ok (false, b) else do
      (ns, buf) ← write_name b.buf b.off qname
      elim ns [
        | none ↦ ok (false, record b { buf = buf })
        | some off ↦ write_codes buf off qtype qclass
      ]
