-- ===== src/Macros/Align/Bits.antt =====
-- `bit_and` with a mask of ones, shifted or not.
use Prim.Native.Nat.{min, bit_and, digits, bit_and-bitwise}
use libcando.Base.{
  ℕ, zero, suc, ◌+◌, ◌-◌, ◌*◌, ◌/◌, ◌%◌, ◌^◌, ◌≤◌, ◌<◌, ◌≡◌, refl, ap, sym, ◌∙◌, arith,
}
use native.Mathlib.Nat.{pow-suc, div-add-mod, div-div-eq-div-mul, mul_comm}

-- The conjunction of `x` and `y`, digit by digit, of which `fuel` are read
abbrev conjunction : (fuel x y : ℕ) → ℕ
conjunction fuel x y = digits (λ _. 0) min fuel x y

conjunction-zero : (fuel y : ℕ) → conjunction fuel 0 y ≡ 0
conjunction-zero zero y = refl
conjunction-zero (suc fuel) y = refl

-- Fuel beyond the number changes nothing.
conjunction_slack : (k fuel x y : ℕ) → x ≤ fuel → conjunction (k + fuel) x y ≡ conjunction fuel x y
conjunction_slack k fuel zero y enough =
    conjunction-zero (k + fuel) y ∙ sym (conjunction-zero fuel y)
conjunction_slack k zero (suc x) y enough = absurd (omega arith)
conjunction_slack k (suc fuel) (suc x) y enough =
    let out : k + suc fuel ≡ suc (k + fuel) = omega arith in
    let later = conjunction_slack k fuel (suc x / 2) (y / 2) (omega arith) in
    rw out (omega (arith, later))

and_none : (y : ℕ) → bit_and 0 y ≡ 0
and_none y = bit_and-bitwise 0 y

and_step : (x y : ℕ) → bit_and x y ≡ bit_and (x / 2) (y / 2) * 2 + min (x % 2) (y % 2)
and_step zero y = omega (arith, and_none y, and_none (y / 2))
and_step (suc x) y =
    let half = suc x / 2 in
    let rest : x - half + half ≡ x = omega arith in
    let same : conjunction x half (y / 2) ≡ conjunction half half (y / 2) =
      rw⁻¹ (ap (λ (t : ℕ). conjunction t half (y / 2)) rest)
        (conjunction_slack (x - half) half half (y / 2) (omega arith)) in
    omega (arith, same, bit_and-bitwise half (y / 2), bit_and-bitwise (suc x) y)

and_zeros : (bound x : ℕ) → x ≤ bound → bit_and x 0 ≡ 0
and_zeros bound zero h = and_none 0
and_zeros zero (suc x) h = absurd (omega arith)
and_zeros (suc bound) (suc x) h =
    let half = and_zeros bound (suc x / 2) (omega arith) in omega (arith, half, and_step (suc x) 0)

-- 2 ^ n - 1
pub ones : ℕ → ℕ
ones zero = 0
ones (suc n) = 2 * ones n + 1

pub ones_succ : (n : ℕ) → ones n + 1 ≡ 2 ^ n
unfolding ones
ones_succ zero = refl
ones_succ (suc n) = omega (arith, ones_succ n, pow-suc 2 n)

pub two-pow_pos : (k : ℕ) → 0 < 2 ^ k
two-pow_pos zero = omega arith
two-pow_pos (suc k) = omega (arith, pow-suc 2 k, two-pow_pos k)

pub two-pow-add : (k j : ℕ) → 2 ^ k * 2 ^ j ≡ 2 ^ (k + j)
two-pow-add zero j = let e : 0 + j ≡ j = omega arith in rw e (omega arith)
two-pow-add (suc k) j =
    let e : suc k + j ≡ suc (k + j) = omega arith in
    rw (e, pow-suc 2 k, pow-suc 2 (k + j)) (omega (arith, two-pow-add k j))

and-even : (a b : ℕ) → bit_and a (2 * b) ≡ 2 * bit_and (a / 2) b
and-even a b =
    let half : 2 * b / 2 ≡ b = omega arith in
    omega (arith, and_step a (2 * b), ap (bit_and (a / 2)) half)

and-odd : (a b : ℕ) → bit_and a (2 * b + 1) ≡ 2 * bit_and (a / 2) b + a % 2
and-odd a b =
    let half : (2 * b + 1) / 2 ≡ b = omega arith in
    omega (arith, and_step a (2 * b + 1), ap (bit_and (a / 2)) half)

and-ones : (n a : ℕ) → bit_and a (ones n) ≡ a % 2 ^ n
unfolding ones
and-ones zero a = omega (arith, and_zeros a a (omega arith))
and-ones (suc n) a =
    rw (and-odd a (ones n), and-ones n (a / 2), pow-suc 2 n, mul_comm (2 ^ n) 2)
      (omega (
        arith,
        div-add-mod a (2 * 2 ^ n),
        div-add-mod (a / 2) (2 ^ n),
        ap (λ (t : ℕ). 2 ^ n * t) (div-div-eq-div-mul a 2 (2 ^ n)),
      ))

pub and_high : (k j a : ℕ) → bit_and a (2 ^ k * ones j) ≡ 2 ^ k * (a / 2 ^ k % 2 ^ j)
and_high zero j a =
    let whole : a / 1 ≡ a = omega arith in
    let one_time : 1 * ones j ≡ ones j = omega arith in
    rw (one_time, whole) (omega (arith, and-ones j a))
and_high (suc k) j a =
    let twice : 2 ^ suc k * ones j ≡ 2 * (2 ^ k * ones j) = rw (pow-suc 2 k) (omega arith) in
    rw
      (
        twice,
        and-even,
        and_high k j (a / 2),
        div-div-eq-div-mul a 2 (2 ^ k),
        pow-suc 2 k,
        mul_comm (2 ^ k) 2,
      )
      (omega arith)
