-- ===== src/DnsParser/Name.antt =====
-- src/dns_parser/name.rs: names as labels, compressed by pointers into the packet.
pub mod Spells
mod Steps
pub mod Sound
pub mod Complete
pub mod Display
use easyfibers.Prelude.{
  ℕ, zero, suc, ◌+◌, ◌*◌, Bool, true, false, not, List, [], ◌∷◌, ◌++◌, Option, none, some, ◌==◌,
  ltb, leb, if◌then◌else◌, length, bit_and,
}
use easyfibers.Prelude.Outcome.{Outcome, ok, err, panic, stuck, ◌>>=◌}
use easyfibers.Prelude.Slice.{slice, slice_from, index}
use easyfibers.Prelude.Text.{is_ascii, is_utf8}
use easyfibers.DnsParser.Error.{
  Error, unexpected_eof, bad_pointer, label_is_not_ascii, unknown_label_format,
}
use easyfibers.DnsParser.ByteOrder.{BigEndian, read_u16_at}

pub record Name : Type 0 where
  pub labels : List ℕ
  pub original : List ℕ

unfoldable pub byte_len : Name → ℕ
byte_len n = length n.labels

-- `if let None = return_pos { return_pos = Some(pos); }`
abbrev pub first_pos : Option ℕ → ℕ → Option ℕ
first_pos none pos = some pos
first_pos (some r) pos = some r

-- Where the labels end, after the loop.
abbrev pub labels_end : Option ℕ → ℕ → ℕ
labels_end none pos = pos + 1
labels_end (some return_pos) pos = return_pos + 2

-- Each round of the loop shortens what is left of the slice, or lowers `largest_pos`.
abbrev pub scan_fuel : List ℕ → List ℕ → ℕ
scan_fuel data_ original = suc (length original * suc (length original) + length data_)

-- `unwrap` on the name that a pointer of a printed name leads to.
abbrev unwrap : {A : Type 0} → Outcome Error A → Outcome Error A
unwrap (ok a) = ok a
unwrap (err e) = panic
unwrap panic = panic
unwrap stuck = stuck

-- `if pos != 0 { fmt.write_char('.') }`
abbrev dot : ℕ → List ℕ
dot pos = if pos == 0 then [] else b'.' ∷ []

module _ ⦃be : BigEndian⦄ where
  -- The loop `while byte != 0` of `scan`.
  unfoldable pub scan_loop :
      ℕ → List ℕ → List ℕ → ℕ → ℕ → Option ℕ → ℕ → Outcome Error (Option ℕ × ℕ)
  scan_loop zero original parse_data pos largest_pos return_pos byte = stuck
  scan_loop (suc fuel) original parse_data pos largest_pos return_pos byte =
      if byte == 0
      then ok (return_pos, pos)
      else if leb (length parse_data) pos
      then err unexpected_eof
      else if bit_and byte 0b1100_0000 == 0b1100_0000
      then (if ltb (length parse_data) (pos + 2) then err unexpected_eof else do
        word ← read_u16_at parse_data pos (pos + 2)
        let off = bit_and word 0b0011_1111_1111_1111
        if leb (length original) off
            then err unexpected_eof
            else if leb largest_pos off
            then err bad_pointer
            else do
              target ← slice_from original off
              byte' ← index target 0
              scan_loop fuel original target 0 off (first_pos return_pos pos) byte')
      else if bit_and byte 0b1100_0000 == 0
      then (let end = pos + byte + 1 in
          if ltb (length parse_data) end then err unexpected_eof else do
            label ← slice parse_data (pos + 1) end
            if not (is_ascii label)
                then err label_is_not_ascii
                else if leb (length parse_data) end
                then err unexpected_eof
                else do
                  byte' ← index parse_data end
                  scan_loop fuel original parse_data end largest_pos return_pos byte')
      else err unknown_label_format

  unfoldable pub scan : List ℕ → List ℕ → Outcome Error Name
  scan data_ original = if leb (length data_) 0 then err unexpected_eof else do
    byte ← index data_ 0
    (return_pos, pos) ←
        scan_loop (scan_fuel data_ original) original data_ 0 (length original) none byte
    labels ← slice data_ 0 (labels_end return_pos pos)
    ok (record { labels = labels; original = original })

  -- `Display`: what is written. A pointer prints the name that is there; both go on with the text.
  unfoldable pub fmt : ℕ → List ℕ → List ℕ → ℕ → Outcome Error (List ℕ)
  fmt zero data_ original pos = stuck
  fmt (suc fuel) data_ original pos = do
    byte ← index data_ pos
    if byte == 0
        then ok []
        else if bit_and byte 0b1100_0000 == 0b1100_0000
        then (do
          word ← read_u16_at data_ pos (pos + 2)
          let off = bit_and word 0b0011_1111_1111_1111
          target ← slice_from original off
          name ← unwrap (scan target original)
          text ← fmt fuel name.labels name.original 0
          ok (dot pos ++ text))
        else if bit_and byte 0b1100_0000 == 0
        then (do
          let end = pos + byte + 1
          label ← slice data_ (pos + 1) end
          if not (is_utf8 label)
              then panic
              else do text ← fmt fuel data_ original end; ok (dot pos ++ (label ++ text)))
        else panic
