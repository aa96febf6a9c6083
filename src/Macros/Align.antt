-- ===== src/Macros/Align.antt =====
-- UDO_BYTE_ALIGN and UDO_PAGE_GET: masking by a power of two is rounding.
mod Bits
use libcando.Base.{ℕ, ◌+◌, ◌-◌, ◌*◌, ◌/◌, ◌%◌, ◌^◌, ◌≤◌, ◌<◌, ◌≡◌, ap, arith, add64}
use native.Mathlib.Nat.{
  mul-mod_right, div-add-mod, mod-lt, mod-eq_of_lt, div-lt_iff_lt-mul, mul_comm,
}
use Bits.{ones, ones_succ, two-pow-add, two-pow_pos, and_high}
use libcando.Macros.{byte_align, page_get, page_size, not64}
use Prim.Native.Nat.{bit_and}

not64-mask : (k j : ℕ) → k + j ≡ 64 → not64 (2 ^ k - 1) ≡ 2 ^ k * ones j
not64-mask k j e = omega (
  arith,
  two-pow_pos k,
  two-pow-add k j,
  ap (λ (t : ℕ). 2 ^ t) e,
  ap (λ (t : ℕ). 2 ^ k * t) (ones_succ j),
)

-- Masking a word by `~(2 ^ k - 1)` drops its remainder by `2 ^ k`.
pub mask-round :
    (k j a : ℕ) → k + j ≡ 64 → a < 2 ^ 64 → bit_and a (not64 (2 ^ k - 1)) ≡ 2 ^ k * (a / 2 ^ k)
mask-round k j a e h =
    rw (not64-mask k j e, and_high k j a, mod-eq_of_lt {n = a / 2 ^ k} {m = 2 ^ j} fits)
  where
    fits : a / 2 ^ k < 2 ^ j
    fits =
        (div-lt_iff_lt-mul (two-pow_pos k)).1
          (omega (arith, two-pow-add k j, mul_comm (2 ^ k) (2 ^ j), ap (λ (t : ℕ). 2 ^ t) e))

-- UDO_BYTE_ALIGN to a power of two rounds up: the result is a multiple of it, at least `bytes` and
-- less than one multiple above, provided that a whole multiple above `bytes` is a 64-bit size.
pub byte_align-least :
    (k bytes : ℕ)
    → k ≤ 64
    → bytes + 2 ^ k ≤ 2 ^ 64
    → (bytes ≤ byte_align bytes (2 ^ k))
      × (byte_align bytes (2 ^ k) < bytes + 2 ^ k)
      × (byte_align bytes (2 ^ k) % 2 ^ k ≡ 0)
unfolding byte_align
byte_align-least k bytes hk h =
    let fits : bytes + (2 ^ k - 1) < 2 ^ 64 = omega (arith, two-pow_pos k) in
    let same : add64 bytes (2 ^ k - 1) ≡ bytes + (2 ^ k - 1) = omega arith in
    rw (same, mask-round k (64 - k) (bytes + (2 ^ k - 1)) (omega arith) fits)
      (
        omega (
          arith,
          two-pow_pos k,
          div-add-mod (bytes + (2 ^ k - 1)) (2 ^ k),
          mod-lt (bytes + (2 ^ k - 1)) (two-pow_pos k),
        ),
        omega (
          arith,
          two-pow_pos k,
          div-add-mod (bytes + (2 ^ k - 1)) (2 ^ k),
          mod-lt (bytes + (2 ^ k - 1)) (two-pow_pos k),
        ),
        mul-mod_right (2 ^ k) ((bytes + (2 ^ k - 1)) / 2 ^ k),
      )

-- UDO_PAGE_GET of a 64-bit address is the start of the page that the address lies in.
pub page_get-floor :
    (ptr : ℕ)
    → ptr < 2 ^ 64
    → (page_get ptr ≤ ptr) × (ptr < page_get ptr + page_size) × (page_get ptr % page_size ≡ 0)
unfolding page_get
page_get-floor ptr h = omega (arith, mask-round 12 52 ptr (omega arith) h)
