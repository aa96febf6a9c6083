-- ===== src/Tests/MacrosTests.antt =====
-- include/macros.h at concrete values
use libcando.Base.{ℕ, ◌+◌, ◌^◌, ◌%◌, ◌<◌, ◌≤◌, ◌≡◌, refl, arith, List, [], ◌∷◌}
use libcando.Macros.{byte_align, strtou}
use libcando.Macros.Align.{byte_align-least}

byte_align_pages :
    (byte_align 1 4096 ≡ 4096) × (byte_align 4096 4096 ≡ 4096) × (byte_align 0 4096 ≡ 0)
unfolding byte_align
byte_align_pages = (refl, refl, refl)

byte_align-least_example :
    (5000 ≤ byte_align 5000 (2 ^ 12))
    × (byte_align 5000 (2 ^ 12) < 5000 + 2 ^ 12)
    × (byte_align 5000 (2 ^ 12) % 2 ^ 12 ≡ 0)
byte_align-least_example = byte_align-least 12 5000 (omega arith) (omega arith)

abbrev plus_one : List ℕ
plus_one = b'+' ∷ b'1' ∷ []

-- The sum of ".." is that of "+1".
strtou_collides : strtou plus_one ≡ strtou (b'.' ∷ b'.' ∷ [])
unfolding strtou
strtou_collides = refl
