-- ===== src/Prelude/Text.antt =====
-- What the source uses of Rust's text: bytes that are ASCII, and bytes that are UTF-8.
use easyfibers.Prelude.Tests.{ltb, leb, ◌==◌, if◌then◌else◌}
use easyfibers.Prelude.Lists.{All}
use Prim.Native.Nat.{ℕ, ◌<◌}
use mathlib.Core.Path.{◌≡◌, refl}
use mathlib.Core.Bool.{Bool, true, ◌&&◌}
use mathlib.Core.List.{List, [], ◌∷◌}
use native.Mathlib.Omega.{arith}

abbrev pub IsAscii : ℕ → Type 0
IsAscii b = b < 128

unfoldable pub is_ascii : List ℕ → Bool
is_ascii [] = true
is_ascii (b ∷ bs) = ltb b 128 && is_ascii bs

abbrev within : ℕ → ℕ → ℕ → Bool
within lo hi b = leb lo b && leb b hi

-- A continuation byte.
abbrev is_tail : ℕ → Bool
is_tail b = within 0x80 0xbf b

-- The second byte of three, and of four: no overlong form, no surrogate, nothing above U+10FFFF.
is_second_of_three : ℕ → ℕ → Bool
is_second_of_three a b =
    if a == 0xe0 then within 0xa0 0xbf b else if a == 0xed then within 0x80 0x9f b else is_tail b

is_second_of_four : ℕ → ℕ → Bool
is_second_of_four a b =
    if a == 0xf0 then within 0x90 0xbf b else if a == 0xf4 then within 0x80 0x8f b else is_tail b

-- What `str::from_utf8` accepts.
unfoldable pub is_utf8 : List ℕ → Bool
unfolding is_second_of_three is_second_of_four
is_utf8 [] = true
is_utf8 (a ∷ []) = ltb a 0x80
is_utf8 (a ∷ b ∷ []) = if ltb a 0x80 then ltb b 0x80 else within 0xc2 0xdf a && is_tail b
is_utf8 (a ∷ b ∷ c ∷ []) =
    if ltb a 0x80
    then is_utf8 (b ∷ c ∷ [])
    else if within 0xc2 0xdf a
    then is_tail b && ltb c 0x80
    else within 0xe0 0xef a && is_second_of_three a b && is_tail c
is_utf8 (a ∷ b ∷ c ∷ d ∷ r) =
    if ltb a 0x80
    then is_utf8 (b ∷ c ∷ d ∷ r)
    else if within 0xc2 0xdf a
    then is_tail b && is_utf8 (c ∷ d ∷ r)
    else if within 0xe0 0xef a
    then is_second_of_three a b && is_tail c && is_utf8 (d ∷ r)
    else within 0xf0 0xf4 a && is_second_of_four a b && is_tail c && is_tail d && is_utf8 r

pub is_ascii→All : (bs : List ℕ) → is_ascii bs ≡ true → All IsAscii bs
unfolding is_ascii
is_ascii→All [] h = tt
is_ascii→All (b ∷ bs) h = (ground arith, is_ascii→All bs (ground arith))

pub All→is_ascii : (bs : List ℕ) → All IsAscii bs → is_ascii bs ≡ true
unfolding is_ascii
All→is_ascii [] h = refl
All→is_ascii (b ∷ bs) (p, h) = ground (arith, All→is_ascii bs h)

pub is_utf8-ascii : (bs : List ℕ) → All IsAscii bs → is_utf8 bs ≡ true
unfolding is_utf8
is_utf8-ascii [] h = refl
is_utf8-ascii (a ∷ []) (p, h) = ground arith
is_utf8-ascii (a ∷ b ∷ []) (p, (q, h)) = ground arith
is_utf8-ascii (a ∷ b ∷ c ∷ []) (p, h) = ground (arith, is_utf8-ascii (b ∷ c ∷ []) h)
is_utf8-ascii (a ∷ b ∷ c ∷ d ∷ r) (p, h) = ground (arith, is_utf8-ascii (b ∷ c ∷ d ∷ r) h)
