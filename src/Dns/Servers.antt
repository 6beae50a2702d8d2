-- ===== src/Dns/Servers.antt =====
-- src/dns.rs: the texts of the system that list name servers. A text is a list of code points, and
-- `str::parse` of an address is an argument.
use easyfibers.Prelude.{
  ℕ, Bool, true, false, ◌&&◌, ◌||◌, List, [], ◌∷◌, ◌++◌, Option, none, some, ◌==◌, leb,
  if◌then◌else◌,
}
use easyfibers.Dns.{IpAddr, v4}
use easyfibers.DnsParser.Builder.{split}

-- `get_google`
abbrev pub get_google : List IpAddr
get_google = v4 0x0808_0808 ∷ v4 0x0808_0404 ∷ []

-- `char::is_whitespace`
abbrev is_whitespace : ℕ → Bool
is_whitespace c =
    (leb 9 c && leb c 13)
    || c == 0x20
    || c == 0x85
    || c == 0xa0
    || c == 0x1680
    || (leb 0x2000 c && leb c 0x200a)
    || c == 0x2028
    || c == 0x2029
    || c == 0x202f
    || c == 0x205f
    || c == 0x3000

abbrev push_char : ℕ → List (List ℕ) → List (List ℕ)
push_char c [] = (c ∷ []) ∷ []
push_char c (w ∷ ws) = (c ∷ w) ∷ ws

-- The pieces between white space, empty ones included.
pieces_of : List ℕ → List (List ℕ)
pieces_of [] = [] ∷ []
pieces_of (c ∷ cs) =
    let rest = pieces_of cs in if is_whitespace c then [] ∷ rest else push_char c rest

abbrev drop_empty : List (List ℕ) → List (List ℕ)
drop_empty [] = []
drop_empty ([] ∷ ws) = drop_empty ws
drop_empty ((c ∷ w) ∷ ws) = (c ∷ w) ∷ drop_empty ws

-- `str::split_whitespace`
unfoldable pub split_whitespace : List ℕ → List (List ℕ)
unfolding pieces_of
split_whitespace line = drop_empty (pieces_of line)

-- A carriage return at the end of a line goes.
abbrev strip_return : List ℕ → List ℕ
strip_return [] = []
strip_return (c ∷ []) = if c == 13 then [] else c ∷ []
strip_return (c ∷ d ∷ cs) = c ∷ strip_return (d ∷ cs)

-- What is behind the last line feed is a line only if it is not empty.
abbrev terminated : List (List ℕ) → List (List ℕ)
terminated [] = []
terminated ([] ∷ []) = []
terminated ((c ∷ cs) ∷ []) = (c ∷ cs) ∷ []
terminated (l ∷ k ∷ ls) = strip_return l ∷ terminated (k ∷ ls)

-- `str::lines`
unfoldable pub lines : List ℕ → List (List ℕ)
unfolding split
lines s = terminated (split b'\n' s)

abbrev starts_with : List ℕ → List ℕ → Bool
starts_with s [] = true
starts_with [] (c ∷ p) = false
starts_with (d ∷ s) (c ∷ p) = d == c && starts_with s p

abbrev pub nameserver : List ℕ
nameserver = b'n' ∷ b'a' ∷ b'm' ∷ b'e' ∷ b's' ∷ b'e' ∷ b'r' ∷ b'v' ∷ b'e' ∷ b'r' ∷ []

-- Pushing an address that was parsed.
abbrev push_some : Option IpAddr → List IpAddr → List IpAddr
push_some none out = out
push_some (some adr) out = adr ∷ out

module _ (parse : List ℕ → Option IpAddr) where
  -- One line of resolv.conf, by its words.
  abbrev resolv_line : List (List ℕ) → Option IpAddr
  resolv_line (key ∷ adr ∷ ws) = if starts_with key nameserver then parse adr else none
  resolv_line _ = none

  resolv_lines : List (List ℕ) → List IpAddr
  unfolding split_whitespace
  resolv_lines [] = []
  resolv_lines (l ∷ ls) = push_some (resolv_line (split_whitespace l)) (resolv_lines ls)

  unfoldable pub resolv_parse : List ℕ → List IpAddr
  unfolding resolv_lines lines
  resolv_parse s = resolv_lines (lines s)

  -- One line of the output of scutil: `nameserver[0] : 8.8.8.8`.
  abbrev scutil_line : List (List ℕ) → Option IpAddr
  scutil_line (key ∷ (c ∷ []) ∷ adr ∷ ws) =
      if starts_with key (nameserver ++ (b'[' ∷ [])) && c == b':' then parse adr else none
  scutil_line _ = none

  scutil_lines : List (List ℕ) → List IpAddr
  unfolding split_whitespace
  scutil_lines [] = []
  scutil_lines (l ∷ ls) = push_some (scutil_line (split_whitespace l)) (scutil_lines ls)

  unfoldable pub scutil_parse : List ℕ → List IpAddr
  unfolding scutil_lines lines
  scutil_parse s = scutil_lines (lines s)

  -- `get_dns_servers` on a unix that is no macOS: `contents` is the text of /etc/resolv.conf, where
  -- the file could be opened and read.
  unfoldable pub get_dns_servers : Option (List ℕ) → List IpAddr
  get_dns_servers none = get_google
  get_dns_servers (some contents) = resolv_parse contents

  -- That on macOS: `out` is the text that scutil printed, where it ran.
  unfoldable pub get_dns_servers_macos : Option (List ℕ) → List IpAddr
  get_dns_servers_macos none = get_google
  get_dns_servers_macos (some out) = scutil_parse out
