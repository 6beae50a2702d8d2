-- ===== src/DnsParser/Builder/WriteName.antt =====
-- src/dns_parser/builder.rs: what `write_name` writes.
use easyfibers.Prelude.{
  ℕ, zero, suc, ◌+◌, ◌%◌, ◌≤◌, ◌<◌, ◌≡◌, ◌≢◌, refl, sym, ap, ◌∙◌, List, [], ◌∷◌, ◌++◌, some, length,
  length-append, set, All, All-append, IsByte, arith, le→ltb_false, lt→leb_false, lt→ltb,
  ne→==_false,
}
use mathlib.Core.List.{append_assoc, append-nil}
use easyfibers.Prelude.Outcome.{ok, panic}
use easyfibers.Prelude.Slice.{assign, slice-append, splice-append, take-append_len, drop-append_len}
use easyfibers.Prelude.Text.{IsAscii}
use easyfibers.DnsParser.Error.{Error}
use easyfibers.DnsParser.Builder.{split, write_parts, write_name}
use easyfibers.DnsParser.Name.Spells.{Spells, root, label, joined, dotted}

-- The wire form of a name: each label behind its length, and no root label yet.
unfoldable pub encoded : List (List ℕ) → List ℕ
encoded [] = []
encoded (p ∷ ps) = (length p ∷ p) ++ encoded ps

-- A label that a host name can have: not empty, ASCII, no dot, and of at most 62 bytes.
pub record IsLabel (p : List ℕ) : Type 0 where
  pub nonempty : 0 < length p
  pub short : length p < 63
  pub ascii : All IsAscii p
  pub no_dot : All (λ c. c ≢ b'.') p

set-append :
    (pre : List ℕ) (x v : ℕ) (post : List ℕ) (i : ℕ)
    → i ≡ length pre
    → assign {E = Error} (pre ++ (x ∷ post)) i v ≡ ok (pre ++ (v ∷ post))
unfolding assign
set-append pre x v post i e =
    rw (lt→ltb i (length (pre ++ (x ∷ post))) (omega (arith, length-append pre (x ∷ post))), e)
      (ap ok (go pre))
  where
    go : (pre : List ℕ) → set (pre ++ (x ∷ post)) (length pre) v ≡ pre ++ (v ∷ post)
    go [] = refl
    go (y ∷ ys) = ap (λ t. y ∷ t) (go ys)

pub split_at :
    (n : ℕ) (xs : List ℕ)
    → n ≤ length xs
    → (front : List ℕ) × (back : List ℕ) × (xs ≡ front ++ back) × (length front ≡ n)
split_at zero xs h = ([], xs, refl, refl)
split_at (suc n) [] h = absurd (omega arith)
split_at (suc n) (x ∷ xs) h =
    let (front, back, e, l) = split_at n xs (omega arith) in
    (x ∷ front, back, ap (λ t. x ∷ t) e, ap suc l)

-- One round of the loop, where the part fits.
write_part :
    (p : List ℕ) (ps : List (List ℕ)) (pre room post : List ℕ) (off : ℕ)
    → length p < 63
    → off ≡ length pre
    → length room ≡ suc (length p)
    → write_parts (p ∷ ps) (pre ++ (room ++ post)) off
      ≡ write_parts ps ((pre ++ (length p ∷ p)) ++ post) (off + 1 + length p)
unfolding write_parts
write_part p ps pre [] post off h e l = absurd (omega arith)
write_part p ps pre (x ∷ room) post off h e l =
    let n = length-append pre (x ∷ (room ++ post)) in
    let m = length-append room post in
    let byte : length p % 256 ≡ length p = omega arith in
    let shift : pre ++ (length p ∷ (room ++ post)) ≡ (pre ++ (length p ∷ [])) ++ (room ++ post) =
      sym (append_assoc pre (length p ∷ []) (room ++ post)) in
    let k = length-append pre (length p ∷ []) in
    let done : (pre ++ (length p ∷ [])) ++ (p ++ post) ≡ (pre ++ (length p ∷ p)) ++ post =
      append_assoc pre (length p ∷ []) (p ++ post) ∙ sym (append_assoc pre (length p ∷ p) post) in
    rw
      (
        lt→leb_false 63 (length p) h,
        le→ltb_false (length (pre ++ (x ∷ (room ++ post)))) (length p + off + 1) (omega arith),
        set-append pre x (length p % 256) (room ++ post) off e,
        byte,
        shift,
        slice-append {E = Error} (pre ++ (length p ∷ [])) room post (off + 1) (off + 1 + length p)
            (omega arith) (omega arith),
        splice-append (pre ++ (length p ∷ [])) room p post (off + 1) (off + 1 + length p)
            (omega arith) (omega arith),
        done,
      )
      refl

-- The parts are written one behind the other, and the rest of the buffer stays.
write_parts-encoded :
    (ps : List (List ℕ)) (pre room rest : List ℕ) (off : ℕ)
    → All (λ p. length p < 63) ps
    → off ≡ length pre
    → length room ≡ length (encoded ps)
    → write_parts ps (pre ++ (room ++ rest)) off
      ≡ write_parts [] ((pre ++ encoded ps) ++ rest) (off + length (encoded ps))
unfolding encoded
write_parts-encoded [] pre [] rest off h e l =
    rw append-nil (ap (write_parts [] (pre ++ rest)) (omega arith))
write_parts-encoded [] pre (x ∷ room) rest off h e l = absurd (omega arith)
write_parts-encoded (p ∷ ps) pre room rest off (h, hs) e l =
    let n = length-append p (encoded ps) in
    let (front, back, er, lf) = split_at (suc (length p)) room (omega arith) in
    let lr : length room ≡ length front + length back = ap length er ∙ length-append front back in
    let k = length-append pre (length p ∷ p) in
    rw
      (
        er,
        append_assoc front back rest,
        write_part p ps pre front (back ++ rest) off h e lf,
        write_parts-encoded ps (pre ++ (length p ∷ p)) back rest (off + 1 + length p) hs
            (omega arith) (omega arith),
        append_assoc pre (length p ∷ p) (encoded ps),
      )
      (ap (write_parts [] ((pre ++ (length p ∷ (p ++ encoded ps))) ++ rest)) (omega arith))

-- A name is split at its dots into its labels.
split-cons :
    (p cs : List ℕ) (q : List ℕ) (qs : List (List ℕ))
    → All (λ c. c ≢ b'.') p
    → split b'.' cs ≡ q ∷ qs
    → split b'.' (p ++ cs) ≡ (p ++ q) ∷ qs
unfolding split
split-cons [] cs q qs h e = e
split-cons (c ∷ p) cs q qs (n, h) e = rw (ne→==_false c b'.' n, split-cons p cs q qs h e) refl

split-dotted : (ps : List (List ℕ)) → All IsLabel ps → split b'.' (dotted ps) ≡ [] ∷ ps
unfolding split dotted
split-dotted [] h = refl
split-dotted (p ∷ ps) (l, h) =
    ap (λ t. [] ∷ t) (split-cons p (dotted ps) [] ps l.no_dot (split-dotted ps h) ∙ rw append-nil)

pub split-joined :
    (p : List ℕ) (ps : List (List ℕ)) → All IsLabel (p ∷ ps) → split b'.' (joined (p ∷ ps)) ≡ p ∷ ps
unfolding joined
split-joined p ps (l, h) =
    split-cons p (dotted ps) [] ps l.no_dot (split-dotted ps h) ∙ rw append-nil

labels-short : (ps : List (List ℕ)) → All IsLabel ps → All (λ p. length p < 63) ps
labels-short [] h = tt
labels-short (p ∷ ps) (l, h) = (l.short, labels-short ps h)

module _ (p : List ℕ) (ps : List (List ℕ)) (labels : All IsLabel (p ∷ ps)) (pre room : List ℕ)
    (off : ℕ) (e : off ≡ length pre) (l : length room ≡ length (encoded (p ∷ ps))) where
  -- A name of valid labels is written in wire form with the root label behind it, where there is
  -- room for both, and the rest of the buffer stays.
  pub write_name-encoded :
      (z : ℕ) (rest : List ℕ)
      → write_name (pre ++ (room ++ (z ∷ rest))) off (joined (p ∷ ps))
        ≡ ok (some (off + length (encoded (p ∷ ps)) + 1), (pre ++ encoded (p ∷ ps)) ++ (0 ∷ rest))
  unfolding write_name write_parts
  write_name-encoded z rest =
      rw
        (
          split-joined p ps labels,
          write_parts-encoded (p ∷ ps) pre room (z ∷ rest) off (labels-short (p ∷ ps) labels) e l,
          set-append (pre ++ encoded (p ∷ ps)) z 0 rest (off + length (encoded (p ∷ ps)))
              (omega (arith, length-append pre (encoded (p ∷ ps)))),
        )
        refl

  -- Where the labels end with the buffer, the root label is written out of range, which panics: the
  -- test before each label leaves no room for it.
  pub write_name-full : write_name (pre ++ room) off (joined (p ∷ ps)) ≡ panic
  unfolding write_name write_parts assign
  write_name-full =
      rw
        (
          split-joined p ps labels,
          ← append-nil room,
          write_parts-encoded (p ∷ ps) pre room [] off (labels-short (p ∷ ps) labels) e l,
          append-nil (pre ++ encoded (p ∷ ps)),
          le→ltb_false (off + length (encoded (p ∷ ps))) (length (pre ++ encoded (p ∷ ps)))
              (omega (arith, length-append pre (encoded (p ∷ ps)))),
        )
        refl

-- The wire form spells the labels.
pub encoded-Spells :
    (original : List ℕ) (limit : ℕ) (ps : List (List ℕ)) (rest : List ℕ)
    → All IsLabel ps
    → Spells original limit (encoded ps ++ (0 ∷ rest)) ps (length (encoded ps) + 1)
unfolding encoded
encoded-Spells original limit [] rest h = root refl refl (omega arith)
encoded-Spells original limit (p ∷ ps) rest (l, h) =
    let tail = p ++ (encoded ps ++ (0 ∷ rest)) in
    let et = take-append_len p (encoded ps ++ (0 ∷ rest)) (length p) refl in
    let ed = drop-append_len p (encoded ps ++ (0 ∷ rest)) (length p) refl in
    let n = length-append p (encoded ps ++ (0 ∷ rest)) in
    let m = length-append (encoded ps) (0 ∷ rest) in
    let k = length-append p (encoded ps) in
    rw (append_assoc p (encoded ps) (0 ∷ rest)) (
      label {k = length (encoded ps) + 1} {qs = ps} l.nonempty (omega (arith, l.short))
        (omega arith) (rw et l.ascii) (rw ed (encoded-Spells original limit ps rest h)) (rw et)
        (omega arith))

ascii-IsByte : (p : List ℕ) → All IsAscii p → All IsByte p
ascii-IsByte [] h = tt
ascii-IsByte (c ∷ p) (a, h) = (omega arith, ascii-IsByte p h)

pub encoded-IsByte : (ps : List (List ℕ)) → All IsLabel ps → All IsByte (encoded ps)
unfolding encoded
encoded-IsByte [] h = tt
encoded-IsByte (p ∷ ps) (l, h) = (
  omega (arith, l.short),
  All-append IsByte p (encoded ps) (ascii-IsByte p l.ascii) (encoded-IsByte ps h),
)
