-- ===== src/DnsParser/Name/Spells.antt =====
-- src/dns_parser/name.rs: what bytes spell a name, as a relation, with no loop and no positions.
use easyfibers.Prelude.{
  ℕ, suc, ◌+◌, ◌*◌, ◌%◌, ◌≤◌, ◌<◌, ◌≡◌, List, [], ◌∷◌, ◌++◌, length, take, drop, All, arith,
  length-drop,
}
use easyfibers.Prelude.Text.{IsAscii}

-- A pointer to the root name stands for one empty piece, since the printer puts a dot before it.
abbrev pub pieces : List (List ℕ) → List (List ℕ)
pieces [] = [] ∷ []
pieces (q ∷ qs) = q ∷ qs

-- In the packet `original`, the bytes `d` spell `ps` with their first `n` bytes, and the first
-- pointer leads below `limit`. A pointer leads to the front of a name whose pointers lead further
-- back.
pub data Spells (original : List ℕ) : ℕ → List ℕ → List (List ℕ) → ℕ → Type 0 where
  root :
      {limit b n : ℕ} {rest : List ℕ} {ps : List (List ℕ)}
      → b ≡ 0
      → ps ≡ []
      → n ≡ 1
      → Spells original limit (b ∷ rest) ps n
  label :
      {limit b n k : ℕ} {tail : List ℕ} {ps qs : List (List ℕ)}
      → 0 < b
      → b < 64
      → b < length tail
      → All IsAscii (take b tail)
      → Spells original limit (drop b tail) qs k
      → ps ≡ take b tail ∷ qs
      → n ≡ suc (b + k)
      → Spells original limit (b ∷ tail) ps n
  pointer :
      {limit a b n k off : ℕ} {rest : List ℕ} {ps qs : List (List ℕ)}
      → 192 ≤ a
      → off ≡ a % 64 * 256 + b
      → off < length original
      → off < limit
      → Spells original off (drop off original) qs k
      → ps ≡ pieces qs
      → n ≡ 2
      → Spells original limit (a ∷ b ∷ rest) ps n

-- The pieces with a dot before each, and with dots between them.
unfoldable pub dotted : List (List ℕ) → List ℕ
dotted [] = []
dotted (p ∷ ps) = b'.' ∷ (p ++ dotted ps)

unfoldable pub joined : List (List ℕ) → List ℕ
unfolding dotted
joined [] = []
joined (p ∷ ps) = p ++ dotted ps

pub Spells-limit :
    {original d : List ℕ} {limit limit' n : ℕ} {ps : List (List ℕ)}
    → limit ≤ limit'
    → Spells original limit d ps n
    → Spells original limit' d ps n
Spells-limit h (root e p k) = root e p k
Spells-limit h (label x y z w s p k) = label x y z w (Spells-limit h s) p k
Spells-limit h (pointer x e y z s p k) = pointer x e y (omega arith) s p k

pub Spells-le :
    {original d : List ℕ} {limit n : ℕ} {ps : List (List ℕ)}
    → Spells original limit d ps n
    → (0 < n) × (n ≤ length d)
Spells-le (root e p k) = omega arith
Spells-le (label {b} {tail} x y z w s p k) =
    let h = Spells-le s in omega (arith, length-drop b tail, h.0, h.1)
Spells-le (pointer x e y z s p k) = omega arith
