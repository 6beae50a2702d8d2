-- ===== src/DnsParser/Enums/Codes.antt =====
-- src/dns_parser/enums.rs: parsing a code undoes the cast to a number, for each enum.
use easyfibers.Prelude.{ℕ, zero, suc, ◌≡◌, refl, ◌≤◌, ◌<◌, arith, ◌↔◌}
use easyfibers.Prelude.Outcome.{ok, panic, Ensures, value, Ensures-of}
use easyfibers.DnsParser.Error.{Error}
use easyfibers.DnsParser.Enums.QueryType
use easyfibers.DnsParser.Enums.QueryType.{QueryType}
use easyfibers.DnsParser.Enums.RecordType
use easyfibers.DnsParser.Enums.RecordType.{RecordType}
use easyfibers.DnsParser.Enums.QueryClass
use easyfibers.DnsParser.Enums.QueryClass.{QueryClass}
use easyfibers.DnsParser.Enums.Class
use easyfibers.DnsParser.Enums.Class.{Class}
use easyfibers.DnsParser.Enums.Opcode
use easyfibers.DnsParser.Enums.Opcode.{Opcode}
use easyfibers.DnsParser.Enums.ResponseCode
use easyfibers.DnsParser.Enums.ResponseCode.{ResponseCode}

pub query_type-parse-to_u16 : (t : QueryType) → QueryType.parse (QueryType.to_u16 t) ≡ ok t
unfolding QueryType.parse QueryType.to_u16
query_type-parse-to_u16 QueryType.a = refl
query_type-parse-to_u16 _ = refl

query_type-to_u16 :
    (code : ℕ) (t : QueryType) → QueryType.parse code ≡ ok t → code ≡ QueryType.to_u16 t
unfolding QueryType.parse QueryType.to_u16
query_type-to_u16 code t h = ground arith

-- A number parses as a query type exactly if it is that type's discriminant.
pub query_type_codes :
    (code : ℕ) (t : QueryType) → (QueryType.parse code ≡ ok t) ↔ (code ≡ QueryType.to_u16 t)
query_type_codes code t = (query_type-to_u16 code t, λ e. rw e (query_type-parse-to_u16 t))

record_type-parse-to_u16 : (t : RecordType) → RecordType.parse (RecordType.to_u16 t) ≡ ok t
unfolding RecordType.parse RecordType.to_u16
record_type-parse-to_u16 RecordType.a = refl
record_type-parse-to_u16 _ = refl

record_type-to_u16 :
    (code : ℕ) (t : RecordType) → RecordType.parse code ≡ ok t → code ≡ RecordType.to_u16 t
unfolding RecordType.parse RecordType.to_u16
record_type-to_u16 code t h = ground arith

-- A number parses as a record type exactly if it is that type's discriminant.
pub record_type_codes :
    (code : ℕ) (t : RecordType) → (RecordType.parse code ≡ ok t) ↔ (code ≡ RecordType.to_u16 t)
record_type_codes code t = (record_type-to_u16 code t, λ e. rw e (record_type-parse-to_u16 t))

pub query_class-parse-to_u16 : (c : QueryClass) → QueryClass.parse (QueryClass.to_u16 c) ≡ ok c
unfolding QueryClass.parse QueryClass.to_u16
query_class-parse-to_u16 QueryClass.in_ = refl
query_class-parse-to_u16 _ = refl

query_class-to_u16 :
    (code : ℕ) (c : QueryClass) → QueryClass.parse code ≡ ok c → code ≡ QueryClass.to_u16 c
unfolding QueryClass.parse QueryClass.to_u16
query_class-to_u16 code c h = ground arith

class-parse-to_u16 : (c : Class) → Class.parse (Class.to_u16 c) ≡ ok c
unfolding Class.parse Class.to_u16
class-parse-to_u16 Class.in_ = refl
class-parse-to_u16 _ = refl

class-to_u16 : (code : ℕ) (c : Class) → Class.parse code ≡ ok c → code ≡ Class.to_u16 c
unfolding Class.parse Class.to_u16
class-to_u16 code c h = ground arith

-- A number parses as a query class, and as a class, exactly if it is the discriminant.
pub class_codes :
    ((code : ℕ) (c : QueryClass) → (QueryClass.parse code ≡ ok c) ↔ (code ≡ QueryClass.to_u16 c))
    × ((code : ℕ) (c : Class) → (Class.parse code ≡ ok c) ↔ (code ≡ Class.to_u16 c))
class_codes = (
  λ code c. (query_class-to_u16 code c, λ e. rw e (query_class-parse-to_u16 c)),
  λ code c. (class-to_u16 code c, λ e. rw e (class-parse-to_u16 c)),
)

-- Writing back an opcode that was read gives its number.
pub opcode-to_u16-of_u16 : (code : ℕ) → Opcode.to_u16 (Opcode.of_u16 code) ≡ code
unfolding Opcode.to_u16 Opcode.of_u16
opcode-to_u16-of_u16 code = ground arith

-- The opcodes that the reader makes: `reserved` holds none of the three named codes.
abbrev pub IsOpcode : Opcode → Type 0
IsOpcode (Opcode.reserved x) = (3 ≤ x) × (x < 16)
IsOpcode _ = Unit {0}

pub opcode-of_u16-to_u16 : (o : Opcode) → IsOpcode o → Opcode.of_u16 (Opcode.to_u16 o) ≡ o
unfolding Opcode.to_u16 Opcode.of_u16
opcode-of_u16-to_u16 (Opcode.reserved x) h = ground arith
opcode-of_u16-to_u16 _ h = refl

pub opcode-lt : (o : Opcode) → IsOpcode o → Opcode.to_u16 o < 16
unfolding Opcode.to_u16
opcode-lt (Opcode.reserved x) h = h.1
opcode-lt _ h = omega arith

abbrev pub IsResponseCode : ResponseCode → Type 0
IsResponseCode (ResponseCode.reserved x) = (6 ≤ x) × (x < 16)
IsResponseCode _ = Unit {0}

pub response_code-of_u8-to_u8 :
    {E : Type 0} (r : ResponseCode)
    → IsResponseCode r
    → ResponseCode.of_u8 {E = E} (ResponseCode.to_u8 r) ≡ ok r
unfolding ResponseCode.to_u8 ResponseCode.of_u8
response_code-of_u8-to_u8 (ResponseCode.reserved x) h = ground arith
response_code-of_u8-to_u8 _ h = refl

pub response_code-lt : (r : ResponseCode) → IsResponseCode r → ResponseCode.to_u8 r < 16
unfolding ResponseCode.to_u8
response_code-lt (ResponseCode.reserved x) h = h.1
response_code-lt _ h = omega arith

response_code-of_u8_low :
    {E : Type 0} (code : ℕ)
    → code < 16
    → (r : ResponseCode) × (ResponseCode.of_u8 {E = E} code ≡ ok r) × (ResponseCode.to_u8 r ≡ code)
unfolding ResponseCode.to_u8 ResponseCode.of_u8
response_code-of_u8_low zero h = (ResponseCode.no_error, refl, refl)
response_code-of_u8_low (suc zero) h = (ResponseCode.format_error, refl, refl)
response_code-of_u8_low (suc (suc zero)) h = (ResponseCode.server_failure, refl, refl)
response_code-of_u8_low (suc (suc (suc zero))) h = (ResponseCode.name_error, refl, refl)
response_code-of_u8_low (suc (suc (suc (suc zero)))) h = (ResponseCode.not_implemented, refl, refl)
response_code-of_u8_low (suc (suc (suc (suc (suc zero))))) h = (ResponseCode.refused, refl, refl)
response_code-of_u8_low (suc (suc (suc (suc (suc (suc n)))))) h =
    (ResponseCode.reserved (suc (suc (suc (suc (suc (suc n)))))), ground arith, refl)

-- The conversion from `u8` returns on codes below 16, with a response code of that number, and
-- panics on all others.
pub response_code-of_u8 :
    {E : Type 0} (code : ℕ)
    → (code < 16
        → (r : ResponseCode) × (ResponseCode.of_u8 {E = E} code ≡ ok r)
          × (ResponseCode.to_u8 r ≡ code))
      × (16 ≤ code → ResponseCode.of_u8 {E = E} code ≡ panic)
unfolding ResponseCode.of_u8
response_code-of_u8 code = (response_code-of_u8_low code, λ h. ground arith)

pub IsOpcode-of_u16 : (code : ℕ) → code < 16 → IsOpcode (Opcode.of_u16 code)
unfolding Opcode.of_u16
IsOpcode-of_u16 zero h = tt
IsOpcode-of_u16 (suc zero) h = tt
IsOpcode-of_u16 (suc (suc zero)) h = tt
IsOpcode-of_u16 (suc (suc (suc n))) h =
    let e : Opcode.of_u16 (suc (suc (suc n))) ≡ Opcode.reserved (suc (suc (suc n))) =
      ground arith in
    rw e (omega arith, h)

IsResponseCode-lt :
    (r : ResponseCode)
    → ResponseCode.of_u8 {E = Error} (ResponseCode.to_u8 r) ≡ ok r
    → ResponseCode.to_u8 r < 16
    → IsResponseCode r
unfolding ResponseCode.to_u8 ResponseCode.of_u8
IsResponseCode-lt (ResponseCode.reserved x) e h = ground arith
IsResponseCode-lt _ e h = tt

pub of_u8-Ensures :
    (code : ℕ) → code < 16 → Ensures IsResponseCode (ResponseCode.of_u8 {E = Error} code)
of_u8-Ensures code h =
    let (r, e, n) = response_code-of_u8_low {E = Error} code h in
    rw e (value (IsResponseCode-lt r (rw n e) (rw n h)))

pub query_type-Returns :
    (code : ℕ) → Ensures (λ t. QueryType.parse code ≡ ok t) (QueryType.parse code)
unfolding QueryType.parse
query_type-Returns code = Ensures-of (QueryType.parse code) (λ e. ground arith) (λ e. ground arith)

pub query_class-Returns :
    (code : ℕ) → Ensures (λ t. QueryClass.parse code ≡ ok t) (QueryClass.parse code)
unfolding QueryClass.parse
query_class-Returns code =
    Ensures-of (QueryClass.parse code) (λ e. ground arith) (λ e. ground arith)

pub record_type-Returns :
    (code : ℕ) → Ensures (λ t. RecordType.parse code ≡ ok t) (RecordType.parse code)
unfolding RecordType.parse
record_type-Returns code =
    Ensures-of (RecordType.parse code) (λ e. ground arith) (λ e. ground arith)

pub class-Returns : (code : ℕ) → Ensures (λ t. Class.parse code ≡ ok t) (Class.parse code)
unfolding Class.parse
class-Returns code = Ensures-of (Class.parse code) (λ e. ground arith) (λ e. ground arith)

pub query_type-lt : (t : QueryType) → QueryType.to_u16 t < 256
unfolding QueryType.to_u16
query_type-lt QueryType.a = omega arith
query_type-lt _ = omega arith

pub query_class-lt : (c : QueryClass) → QueryClass.to_u16 c < 256
unfolding QueryClass.to_u16
query_class-lt QueryClass.in_ = omega arith
query_class-lt _ = omega arith
