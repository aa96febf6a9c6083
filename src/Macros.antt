-- ===== src/Macros.antt =====
-- include/macros.h: the macros that compute a value.
pub mod Align
pub mod Hash
use Prim.Native.Nat.{bit_and}
use libcando.Base.{ℕ, ◌+◌, ◌-◌, ◌^◌, List, [], ◌∷◌, ltb, if◌then◌else◌, add32, add64}

-- UDO_PAGE_SIZE
abbrev pub page_size : ℕ
page_size = 2 ^ 12

-- UDO_DIR_NAME_MAX + UDO_FILE_NAME_MAX
abbrev pub file_path_max : ℕ
file_path_max = 2 ^ 12 + 2 ^ 8

-- UDO_MAX
abbrev pub max_of : ℕ → ℕ → ℕ
max_of a b = if ltb b a then a else b

-- UDO_MIN
abbrev pub min_of : ℕ → ℕ → ℕ
min_of a b = if ltb a b then a else b

-- `~x` of a `size_t`
abbrev pub not64 : ℕ → ℕ
not64 x = 2 ^ 64 - 1 - x

-- UDO_BYTE_ALIGN of a `size_t` to a power of two
unfoldable pub byte_align : ℕ → ℕ → ℕ
byte_align bytes power_two_align =
    bit_and (add64 bytes (power_two_align - 1)) (not64 (power_two_align - 1))

-- UDO_PAGE_GET of an address
pub page_get : ℕ → ℕ
page_get ptr = bit_and ptr (not64 (page_size - 1))

-- A `char`, which is signed, converted to `uint32_t`.
abbrev pub char_value : ℕ → ℕ
char_value c = if ltb c 128 then c else 2 ^ 32 + c - 256

strtou_loop : ℕ → List ℕ → ℕ
strtou_loop hash [] = hash
strtou_loop hash (c ∷ s) = strtou_loop (add32 hash (char_value c)) s

-- UDO_STRTOU of a string that is not NULL, given by its bytes before the terminating zero
unfoldable pub strtou : List ℕ → ℕ
unfolding strtou_loop
strtou str = strtou_loop 0 str
