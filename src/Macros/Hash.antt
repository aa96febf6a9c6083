-- ===== src/Macros/Hash.antt =====
-- UDO_STRTOU adds up the characters of a string.
use libcando.Base.{ℕ, ◌+◌, ◌%◌, ◌^◌, ◌<◌, ◌≡◌, arith, List, [], ◌∷◌, add32}
use libcando.Macros.{char_value, strtou, strtou_loop}

-- The characters of a string, added up as numbers.
abbrev pub char_sum : List ℕ → ℕ
char_sum [] = 0
char_sum (c ∷ s) = c + char_sum s

-- Every character is in ASCII, so that its sign plays no part.
abbrev pub IsAscii : List ℕ → Type 0
IsAscii [] = Unit {0}
IsAscii (c ∷ s) = (c < 128) × IsAscii s

strtou_loop-sum :
    (hash : ℕ) (s : List ℕ)
    → hash < 2 ^ 32
    → IsAscii s
    → strtou_loop hash s ≡ (hash + char_sum s) % 2 ^ 32
unfolding strtou_loop
strtou_loop-sum hash [] h a = omega arith
strtou_loop-sum hash (c ∷ s) h a =
    let ih = strtou_loop-sum (add32 hash (char_value c)) s (omega arith) a.1 in ground (arith, ih)

-- The hash of a string of ASCII characters is the sum of the characters, modulo 2 ^ 32: strings
-- with the same sum collide, whatever their lengths and the order of their characters.
pub strtou-sum : (s : List ℕ) → IsAscii s → strtou s ≡ char_sum s % 2 ^ 32
unfolding strtou
strtou-sum s a = omega (arith, strtou_loop-sum 0 s (omega arith) a)
