-- ===== src/DnsParser/Builder/Query.antt =====
-- src/dns_parser/builder.rs: the bytes that `start` and `add_question` write.
use easyfibers.Prelude.{
  ℕ, ◌+◌, ◌/◌, ◌%◌, ◌<◌, ◌≡◌, refl, Bool, true, List, [], ◌∷◌, ◌++◌, length, length-append, All,
  All-append, IsByte, arith, lt→leb_false,
}
use mathlib.Core.List.{append_assoc}
use easyfibers.Prelude.Outcome.{ok}
use easyfibers.Prelude.Slice.{slice-append, slice_from-append, splice-append, take-append_len}
use easyfibers.DnsParser.Error.{Error}
use easyfibers.DnsParser.ByteOrder.{BigEndian, read_u16_at-append, write_u16_at-append}
use easyfibers.DnsParser.Builder.{start, add_question, query_header, write_u16_from, write_codes}
use easyfibers.DnsParser.Builder.WriteName.{IsLabel, encoded, write_name-encoded, encoded-IsByte}
use easyfibers.DnsParser.Enums.Codes.{query_type-lt, query_class-lt}
use easyfibers.DnsParser.Enums.QueryClass
use easyfibers.DnsParser.Enums.QueryClass.{QueryClass}
use easyfibers.DnsParser.Enums.QueryType
use easyfibers.DnsParser.Enums.QueryType.{QueryType}
use easyfibers.DnsParser.Header.{Header}
use easyfibers.DnsParser.Header.Bytes.{
  IsHeader, flag_word, flag_word-lt, header_bytes, write-header_bytes,
}
use easyfibers.DnsParser.Name.Spells.{joined}

-- The header with one question.
abbrev pub asked : ℕ → Bool → Header
asked id recursion = record (query_header id recursion) { questions = 1 }

-- A name with its root label.
abbrev pub wire_name : List (List ℕ) → List ℕ
wire_name ps = encoded ps ++ (0 ∷ [])

abbrev pub codes : QueryType → QueryClass → List ℕ
codes t q =
    QueryType.to_u16 t / 256
    ∷ QueryType.to_u16 t % 256
    ∷ QueryClass.to_u16 q / 256
    ∷ QueryClass.to_u16 q % 256
    ∷ []

-- The bytes of a query.
abbrev pub query_bytes : ℕ → Bool → List (List ℕ) → QueryType → QueryClass → List ℕ
query_bytes id recursion ps t q = header_bytes (asked id recursion) ++ (wire_name ps ++ codes t q)

module _ (id : ℕ) (small : id < 65536) (recursion : Bool) where
  pub query_header-IsHeader : IsHeader (query_header id recursion)
  query_header-IsHeader = record {
    id = small;
    opcode = tt;
    response_code = tt;
    questions = omega arith;
    answers = omega arith;
    nameservers = omega arith;
    additional = omega arith;
  }

  pub asked-IsHeader : IsHeader (asked id recursion)
  asked-IsHeader = record {
    id = small;
    opcode = tt;
    response_code = tt;
    questions = omega arith;
    answers = omega arith;
    nameservers = omega arith;
    additional = omega arith;
  }

  module _ ⦃be : BigEndian⦄ where
    pub start-bytes :
        (front rest : List ℕ) (off : ℕ)
        → length front ≡ 12
        → 0 < length rest
        → start (record { buf = front ++ rest; off = off }) id recursion
          ≡ ok (true, record { buf = header_bytes (query_header id recursion) ++ rest; off = 12 })
    unfolding start
    start-bytes front rest off l more =
        let n = length-append front rest in
        rw
          (
            lt→leb_false (length (front ++ rest)) 12 (omega arith),
            slice-append {E = Error} [] front rest 0 12 refl (omega arith),
            write-header_bytes (query_header id recursion) query_header-IsHeader {E = Error} front
                l,
            splice-append [] front (header_bytes (query_header id recursion)) rest 0 12 refl
                (omega arith),
          )
          refl

    write_u16_from-append :
        (pre post : List ℕ) (a b off n : ℕ)
        → off ≡ length pre
        → n < 65536
        → write_u16_from (pre ++ (a ∷ b ∷ post)) off n ≡ ok (pre ++ (n / 256 ∷ n % 256 ∷ post))
    unfolding write_u16_from
    write_u16_from-append pre post a b off n e h =
        rw
          (
            slice_from-append {E = Error} pre (a ∷ b ∷ post) off e,
            be.write_u16_lem a b n post h,
            take-append_len pre (a ∷ b ∷ post) off e,
          )
          refl

    -- The codes behind the name, and the count.
    write_codes-bytes :
        (name rest : List ℕ) (a b c d off : ℕ) (t : QueryType) (q : QueryClass)
        → off ≡ 12 + length name
        → write_codes
            (header_bytes (query_header id recursion) ++ (name ++ (a ∷ b ∷ c ∷ d ∷ rest)))
            off
            t
            q
          ≡ ok (
            true,
            record {
              buf =
                  header_bytes (asked id recursion)
                  ++ (name
                      ++ (QueryType.to_u16 t / 256
                          ∷ QueryType.to_u16 t % 256
                          ∷ QueryClass.to_u16 q / 256
                          ∷ QueryClass.to_u16 q % 256
                          ∷ rest));
              off = off + 2 + 2;
            },
          )
    unfolding write_codes header_bytes flag_word
    write_codes-bytes name rest a b c d off t q e =
        let h = query_header id recursion in
        let ty = QueryType.to_u16 t in
        let cl = QueryClass.to_u16 q in
        let w = flag_word h in
        let pre = header_bytes h ++ name in
        let p2 = id / 256 ∷ id % 256 ∷ w / 256 ∷ w % 256 ∷ [] in
        let tail =
          0 ∷ 0 ∷ 0 ∷ 0 ∷ 0 ∷ 0 ∷ (name ++ (ty / 256 ∷ ty % 256 ∷ cl / 256 ∷ cl % 256 ∷ rest)) in
        let n = length-append (header_bytes h) name in
        let n2 = length-append pre (ty / 256 ∷ ty % 256 ∷ []) in
        rw
          (
            ← append_assoc (header_bytes h) name (a ∷ b ∷ c ∷ d ∷ rest),
            write_u16_from-append pre (c ∷ d ∷ rest) a b off ty (omega arith)
                (omega (arith, query_type-lt t)),
            ← append_assoc pre (ty / 256 ∷ ty % 256 ∷ []) (c ∷ d ∷ rest),
            write_u16_from-append (pre ++ (ty / 256 ∷ ty % 256 ∷ [])) rest c d (off + 2) cl
                (omega arith) (omega (arith, query_class-lt q)),
            append_assoc pre (ty / 256 ∷ ty % 256 ∷ []) (cl / 256 ∷ cl % 256 ∷ rest),
            append_assoc (header_bytes h) name (ty / 256 ∷ ty % 256 ∷ cl / 256 ∷ cl % 256 ∷ rest),
            read_u16_at-append {E = Error} p2 tail 0 0 4 6 refl refl,
            write_u16_at-append {E = Error} p2 tail 0 0 4 6 1 refl refl (omega arith),
          )
          refl

    module _ (p : List ℕ) (ps : List (List ℕ)) (labels : All IsLabel (p ∷ ps)) (t : QueryType)
        (q : QueryClass) where
      pub add_question-bytes :
          (room rest : List ℕ) (z a b c d : ℕ)
          → length room ≡ length (encoded (p ∷ ps))
          → add_question
              (record {
                buf =
                    header_bytes (query_header id recursion)
                    ++ (room ++ (z ∷ a ∷ b ∷ c ∷ d ∷ rest));
                off = 12;
              })
              (joined (p ∷ ps))
              t
              q
            ≡ ok (
              true,
              record {
                buf = (query_bytes id recursion (p ∷ ps) t q) ++ rest;
                off = 12 + length (wire_name (p ∷ ps)) + 4;
              },
            )
      unfolding add_question header_bytes
      add_question-bytes room rest z a b c d l =
          let h = query_header id recursion in
          let w = flag_word h in
          let p6 = id / 256 ∷ id % 256 ∷ w / 256 ∷ w % 256 ∷ 0 ∷ 0 ∷ [] in
          let n = length-append (encoded (p ∷ ps)) (0 ∷ []) in
          let off = 12 + length (encoded (p ∷ ps)) + 1 in
          let end : off + 2 + 2 ≡ 12 + length (wire_name (p ∷ ps)) + 4 = omega arith in
          rw
            (
              slice-append {E = Error} p6 (0 ∷ 0 ∷ 0 ∷ 0 ∷ 0 ∷ 0 ∷ [])
                  (room ++ (z ∷ a ∷ b ∷ c ∷ d ∷ rest)) 6 12 refl refl,
              write_name-encoded p ps labels (header_bytes h) room 12 refl l z
                  (a ∷ b ∷ c ∷ d ∷ rest),
              ← append_assoc (encoded (p ∷ ps)) (0 ∷ []) (a ∷ b ∷ c ∷ d ∷ rest),
              write_codes-bytes (wire_name (p ∷ ps)) rest a b c d off t q (omega arith),
              append_assoc (wire_name (p ∷ ps)) (codes t q) rest,
              end,
            )
            refl

      pub query_bytes-IsByte : All IsByte (query_bytes id recursion (p ∷ ps) t q)
      unfolding header_bytes
      query_bytes-IsByte =
          let w = flag_word-lt (asked id recursion) asked-IsHeader in
          let lt = query_type-lt t in
          let lq = query_class-lt q in
          All-append IsByte (header_bytes (asked id recursion))
            ((wire_name (p ∷ ps)) ++ (codes t q)) (omega arith)
            (All-append IsByte (wire_name (p ∷ ps)) (codes t q)
              (All-append IsByte (encoded (p ∷ ps)) (0 ∷ []) (encoded-IsByte (p ∷ ps) labels)
                (omega arith))
              (omega arith))
