-- ===== src/Base/Memory.antt =====
-- Bytes at offsets, with the calls of string.h that move them, and `size_t` values in memory.
use libcando.Base.Tests.{leb, ltb, if◌then◌else◌}
use Prim.Native.Nat.{ℕ, ◌+◌, ◌-◌, ◌*◌, ◌/◌, ◌%◌, ◌^◌, ◌<◌, ◌≤◌}
use mathlib.Core.Logic.{◌⊎◌}
use mathlib.Core.Path.{◌≡◌, refl}
use mathlib.Core.Bool.{Bool, ◌&&◌}
use native.Mathlib.Omega.{arith}

abbrev pub Mem : Type 0
Mem = ℕ → ℕ

-- `p <= i && i < p + n`
abbrev pub inside : ℕ → ℕ → ℕ → Bool
inside p n i = leb p i && ltb i (p + n)

unfoldable pub memset : Mem → ℕ → ℕ → ℕ → Mem
memset m p v n i = if inside p n i then v else m i

-- `memcpy` from one object to another
unfoldable pub memcpy : Mem → ℕ → Mem → ℕ → ℕ → Mem
memcpy m to src from n i = if inside to n i then src (from + (i - to)) else m i

-- `memmove` inside one object: the source is read before it is written.
unfoldable pub memmove : Mem → ℕ → ℕ → ℕ → Mem
unfolding memcpy
memmove m to from n = memcpy m to m from n

-- The bytes of a `size_t`, least significant first.
abbrev pub byte_of : ℕ → ℕ → ℕ
byte_of v k = v / 256 ^ k % 256

unfoldable pub store64 : Mem → ℕ → ℕ → Mem
store64 m p v i = if inside p 8 i then byte_of v (i - p) else m i

unfoldable pub load64 : Mem → ℕ → ℕ
load64 m p =
    m p
    + 256
      * (m (p + 1)
          + 256
            * (m (p + 2)
                + 256
                  * (m (p + 3)
                      + 256
                        * (m (p + 4) + 256 * (m (p + 5) + 256 * (m (p + 6) + 256 * m (p + 7)))))))

-- An `int`, least significant byte first
unfoldable pub load32 : Mem → ℕ → ℕ
load32 m p = m p + 256 * (m (p + 1) + 256 * (m (p + 2) + 256 * m (p + 3)))

-- Loads of the same four bytes in two places
pub load32_moved :
    (m m' : Mem) (p q : ℕ) → ((k : ℕ) → k < 4 → m' (p + k) ≡ m (q + k)) → load32 m' p ≡ load32 m q
unfolding load32
load32_moved m m' p q same =
    let here : m' p ≡ m q =
      let e : p + 0 ≡ p = omega arith in
      let f : q + 0 ≡ q = omega arith in rw (e, f) at (same 0 (omega arith)) in
    rw (here, same 1 (omega arith), same 2 (omega arith), same 3 (omega arith)) refl

store64_at : (m : Mem) (p v k : ℕ) → k < 8 → store64 m p v (p + k) ≡ byte_of v k
unfolding store64
store64_at m p v k h = let e : p + k - p ≡ k = omega arith in rw e (ground arith)

bytes_sum :
    (v : ℕ)
    → v < 2 ^ 64
    → byte_of v 0
        + 256
          * (byte_of v 1
              + 256
                * (byte_of v 2
                    + 256
                      * (byte_of v 3
                          + 256
                            * (byte_of v 4
                                + 256 * (byte_of v 5 + 256 * (byte_of v 6 + 256 * byte_of v 7))))))
      ≡ v
bytes_sum v h = omega arith

-- A size that is stored is the size that is loaded.
pub load64-store64 : (m : Mem) (p v : ℕ) → v < 2 ^ 64 → load64 (store64 m p v) p ≡ v
unfolding load64
load64-store64 m p v h =
    let first : store64 m p v p ≡ byte_of v 0 =
      let e : p + 0 ≡ p = omega arith in rw e at (store64_at m p v 0 (omega arith)) in
    rw
      (
        first,
        store64_at m p v 1 (omega arith),
        store64_at m p v 2 (omega arith),
        store64_at m p v 3 (omega arith),
        store64_at m p v 4 (omega arith),
        store64_at m p v 5 (omega arith),
        store64_at m p v 6 (omega arith),
        store64_at m p v 7 (omega arith),
      )
      (bytes_sum v h)

-- A load reads eight bytes, and no others.
pub load64_eq :
    (m m' : Mem) (p : ℕ) → ((i : ℕ) → p ≤ i → i < p + 8 → m i ≡ m' i) → load64 m p ≡ load64 m' p
unfolding load64
load64_eq m m' p same = rw (
  same p (omega arith) (omega arith),
  same (p + 1) (omega arith) (omega arith),
  same (p + 2) (omega arith) (omega arith),
  same (p + 3) (omega arith) (omega arith),
  same (p + 4) (omega arith) (omega arith),
  same (p + 5) (omega arith) (omega arith),
  same (p + 6) (omega arith) (omega arith),
  same (p + 7) (omega arith) (omega arith),
)

pub store64_ne : (m : Mem) (p v i : ℕ) → (i < p) ⊎ (p + 8 ≤ i) → store64 m p v i ≡ m i
unfolding store64
store64_ne m p v i h = ground arith

-- Loads of the same eight bytes in two places
pub load64_moved :
    (m m' : Mem) (p q : ℕ) → ((k : ℕ) → k < 8 → m' (p + k) ≡ m (q + k)) → load64 m' p ≡ load64 m q
unfolding load64
load64_moved m m' p q same =
    let here : m' p ≡ m q =
      let e : p + 0 ≡ p = omega arith in
      let f : q + 0 ≡ q = omega arith in rw (e, f) at (same 0 (omega arith)) in
    rw (
      here,
      same 1 (omega arith),
      same 2 (omega arith),
      same 3 (omega arith),
      same 4 (omega arith),
      same 5 (omega arith),
      same 6 (omega arith),
      same 7 (omega arith),
    )
