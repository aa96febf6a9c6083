-- ===== src/Shm/Channel/Ints.antt =====
-- The entry's ints in the bytes of the segment that starts at `to`
use native.Mathlib.Decide.{dec_lt}
use libcando.Base.{
  ℕ, ◌+◌, ◌*◌, ◌-◌, ◌<◌, ◌≤◌, ◌≡◌, ◌≢◌, refl, true, false, ◌⊎◌, inl, inr, arith, Bool-cases, ◌==◌,
}
use libcando.Base.Memory.{Mem, memcpy, memset, load32, load32_moved}
use libcando.Shm.Channel.{Shared, store_int, clear_int}

abbrev pub Ints : ℕ → Mem → Shared → Type 0
Ints to bytes m = (j : ℕ) → m.ints (4 * j) ≡ load32 bytes (to + 4 * j)

pub load32-memcpy :
    (m src : Mem) (to from : ℕ) → load32 (memcpy m to src from 4) to ≡ load32 src from
unfolding memcpy
load32-memcpy m src to from =
    load32_moved src (memcpy m to src from 4) to from
      λ k h. let e : from + (to + k - to) ≡ from + k = omega arith in rw e (ground arith)

pub load32-memcpy_out :
    (m src : Mem) (to from off : ℕ)
    → (off + 4 ≤ to) ⊎ (to + 4 ≤ off)
    → load32 (memcpy m to src from 4) off ≡ load32 m off
unfolding memcpy
load32-memcpy_out m src to from off h =
    load32_moved m (memcpy m to src from 4) off off λ k lt. ground arith

pub sides : (to i j : ℕ) → i ≢ j → (to + 4 * j + 4 ≤ to + 4 * i) ⊎ (to + 4 * i + 4 ≤ to + 4 * j)
sides to i j ne = elim (dec_lt j i) [
  | yes before ↦ inl (omega arith)
  | no behind ↦ inr (omega arith)
]

-- A round of the loop that stores
pub store_int-Ints :
    (to i v : ℕ) (bytes buffer : Mem) (m : Shared)
    → Ints to bytes m
    → v ≡ load32 buffer (4 * i)
    → Ints to (memcpy bytes (to + 4 * i) buffer (4 * i) 4) (store_int m (4 * i) v)
store_int-Ints to i v bytes buffer m h e j = elim (Bool-cases (i == j)) [
  | inl same ↦
      let a : i ≡ j = ground arith in
      let t : (4 * j == 4 * j) ≡ true = ground arith in
      rw (a, t, load32-memcpy bytes buffer (to + 4 * j) (4 * j)) (rw a at e)
  | inr other ↦
      let f : (4 * i == 4 * j) ≡ false = ground arith in
      rw
        (
          f,
          h j,
          load32-memcpy_out bytes buffer (to + 4 * i) (4 * i) (to + 4 * j)
              (sides to i j (ground arith)),
        )
        refl
]

-- A round of the loop that clears, of a byte
pub clear_int-Ints :
    (to i : ℕ) (bytes : Mem) (m : Shared)
    → Ints to bytes m
    → bytes (to + 4 * i) < 256
    → Ints to (memset bytes (to + 4 * i) 0 1) (clear_int m (4 * i))
unfolding memset load32
clear_int-Ints to i bytes m h small j = elim (Bool-cases (i == j)) [
  | inl same ↦
      let a : i ≡ j = ground arith in
      let t : (4 * j == 4 * j) ≡ true = ground arith in rw (a, t, h j) (ground (arith, small))
  | inr other ↦ let f : (4 * i == 4 * j) ≡ false = ground arith in rw (f, h j) (ground arith)
]
