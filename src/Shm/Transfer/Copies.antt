-- ===== src/Shm/Transfer/Copies.antt =====
-- What the loops of src/shm.c copy
use libcando.Base.{
  ℕ, zero, suc, ◌+◌, ◌-◌, ◌*◌, ◌<◌, ◌≤◌, ◌≡◌, refl, ◌∙◌, ◌⊎◌, inl, inr, arith, false, ltb, lt→ltb,
  if◌then◌else◌, ◌==◌, Bool-cases,
}
use libcando.Base.Memory.{Mem, memcpy, memset}
use libcando.Shm.Transfer.{write_loop, read_loop}

-- `k` rounds from `s` on, each of an `int`, reach `size`.
abbrev pub Rounds : (k fuel s size : ℕ) → Type 0
Rounds k fuel s size = (k ≤ fuel) × (size ≤ s + 4 * k) × (s + 4 * k < size + 4)

memcpy_in :
    (bytes buffer : Mem) (to s j : ℕ)
    → s ≤ j
    → j < s + 4
    → memcpy bytes (to + s) buffer s 4 (to + j) ≡ buffer j
unfolding memcpy
memcpy_in bytes buffer to s j a b =
    let e : s + (to + j - (to + s)) ≡ j = omega arith in rw e (ground arith)

memcpy_out :
    (bytes buffer : Mem) (to s i : ℕ)
    → (i < to + s) ⊎ (to + s + 4 ≤ i)
    → memcpy bytes (to + s) buffer s 4 i ≡ bytes i
unfolding memcpy
memcpy_out bytes buffer to s i h = ground arith

pub write_loop-step :
    (fuel s size to : ℕ) (bytes buffer : Mem)
    → s < size
    → write_loop (suc fuel) s size to bytes buffer
      ≡ write_loop fuel (s + 4) size to (memcpy bytes (to + s) buffer s 4) buffer
unfolding write_loop
write_loop-step fuel s size to bytes buffer h = rw (lt→ltb s size h) refl

pub write_loop-stop :
    (fuel s size to : ℕ) (bytes buffer : Mem)
    → size ≤ s
    → write_loop fuel s size to bytes buffer ≡ bytes
unfolding write_loop
write_loop-stop zero s size to bytes buffer h = refl
write_loop-stop (suc fuel) s size to bytes buffer h =
    let f : ltb s size ≡ false = ground arith in rw f refl

-- The loop leaves every other byte as it is.
pub write_loop-out :
    (k fuel s size to : ℕ) (bytes buffer : Mem) (i : ℕ)
    → Rounds k fuel s size
    → (i < to + s) ⊎ (to + s + 4 * k ≤ i)
    → write_loop fuel s size to bytes buffer i ≡ bytes i
write_loop-out zero fuel s size to bytes buffer i r h =
    rw (write_loop-stop fuel s size to bytes buffer (omega (arith, r.1))) refl
write_loop-out (suc k) zero s size to bytes buffer i r h = absurd (omega (arith, r.0))
write_loop-out (suc k) (suc fuel) s size to bytes buffer i r h =
    rw (write_loop-step fuel s size to bytes buffer (omega (arith, r.2))) (
      write_loop-out k fuel (s + 4) size to (memcpy bytes (to + s) buffer s 4) buffer i
        (omega (arith, r.0), omega (arith, r.1), omega (arith, r.2))
        (elim h [ inl a ↦ inl (omega arith) | inr b ↦ inr (omega arith) ])
      ∙ memcpy_out bytes buffer to s i (elim h [ inl a ↦ inl a | inr b ↦ inr (omega arith) ]))

-- The loop writes the buffer, up to the end of its last `int`.
pub write_loop-in :
    (k fuel s size to : ℕ) (bytes buffer : Mem) (j : ℕ)
    → Rounds k fuel s size
    → s ≤ j
    → j < s + 4 * k
    → write_loop fuel s size to bytes buffer (to + j) ≡ buffer j
write_loop-in zero fuel s size to bytes buffer j r a b = absurd (omega arith)
write_loop-in (suc k) zero s size to bytes buffer j r a b = absurd (omega (arith, r.0))
write_loop-in (suc k) (suc fuel) s size to bytes buffer j r a b =
    let next : Rounds k fuel (s + 4) size =
      (omega (arith, r.0), omega (arith, r.1), omega (arith, r.2)) in
    let copied = memcpy bytes (to + s) buffer s 4 in
    rw (write_loop-step fuel s size to bytes buffer (omega (arith, r.2)))
      (elim (Bool-cases (ltb j (s + 4))) [
        | inl t ↦
            write_loop-out k fuel (s + 4) size to copied buffer (to + j) next (inl (ground arith))
            ∙ memcpy_in bytes buffer to s j a (ground arith)
        | inr f ↦
            write_loop-in k fuel (s + 4) size to copied buffer j next (ground arith) (omega arith)
      ])

pub read_loop-step :
    (fuel s size from : ℕ) (bytes buffer : Mem)
    → s < size
    → read_loop (suc fuel) s size from bytes buffer
      ≡ read_loop fuel
          (s + 4)
          size
          from
          (memset bytes (from + s) 0 1)
          (memcpy buffer s bytes (from + s) 4)
unfolding read_loop
read_loop-step fuel s size from bytes buffer h = rw (lt→ltb s size h) refl

pub read_loop-stop :
    (fuel s size from : ℕ) (bytes buffer : Mem)
    → size ≤ s
    → read_loop fuel s size from bytes buffer ≡ (bytes, buffer)
unfolding read_loop
read_loop-stop zero s size from bytes buffer h = refl
read_loop-stop (suc fuel) s size from bytes buffer h =
    let f : ltb s size ≡ false = ground arith in rw f refl

read_in :
    (bytes buffer : Mem) (from s j : ℕ)
    → s ≤ j
    → j < s + 4
    → memcpy buffer s bytes (from + s) 4 j ≡ bytes (from + j)
unfolding memcpy
read_in bytes buffer from s j a b =
    let e : from + s + (j - s) ≡ from + j = omega arith in rw e (ground arith)

cleared : (bytes : Mem) (p i : ℕ) → memset bytes p 0 1 i ≡ (if p == i then 0 else bytes i)
unfolding memset
cleared bytes p i = ground arith

memcpy_before : (to from : Mem) (s p j : ℕ) → j < s → memcpy to s from p 4 j ≡ to j
unfolding memcpy
memcpy_before to from s p j h = ground arith

-- Bytes before the loop's place stay, in the reader's buffer and in the shared memory.
read_loop-before :
    (k fuel s size from : ℕ) (bytes buffer : Mem) (j : ℕ)
    → Rounds k fuel s size
    → j < s
    → ((read_loop fuel s size from bytes buffer).1 j ≡ buffer j)
      × ((read_loop fuel s size from bytes buffer).0 (from + j) ≡ bytes (from + j))
read_loop-before zero fuel s size from bytes buffer j r h =
    rw (read_loop-stop fuel s size from bytes buffer (omega (arith, r.1))) (refl, refl)
read_loop-before (suc k) zero s size from bytes buffer j r h = absurd (omega (arith, r.0))
read_loop-before (suc k) (suc fuel) s size from bytes buffer j r h =
    let later =
      read_loop-before k fuel (s + 4) size from (memset bytes (from + s) 0 1)
        (memcpy buffer s bytes (from + s) 4) j
        (omega (arith, r.0), omega (arith, r.1), omega (arith, r.2)) (omega arith) in
    rw (read_loop-step fuel s size from bytes buffer (omega (arith, r.2))) (
      later.0 ∙ memcpy_before buffer bytes s (from + s) j h,
      later.1 ∙ (cleared bytes (from + s) (from + j) ∙ ground arith),
    )

-- The loop reads the shared bytes, up to the end of the last `int`.
pub read_loop-in :
    (k fuel s size from : ℕ) (bytes buffer : Mem) (j : ℕ)
    → Rounds k fuel s size
    → s ≤ j
    → j < s + 4 * k
    → (read_loop fuel s size from bytes buffer).1 j ≡ bytes (from + j)
read_loop-in zero fuel s size from bytes buffer j r a b = absurd (omega arith)
read_loop-in (suc k) zero s size from bytes buffer j r a b = absurd (omega (arith, r.0))
read_loop-in (suc k) (suc fuel) s size from bytes buffer j r a b =
    let next : Rounds k fuel (s + 4) size =
      (omega (arith, r.0), omega (arith, r.1), omega (arith, r.2)) in
    let left = memset bytes (from + s) 0 1 in
    let got = memcpy buffer s bytes (from + s) 4 in
    rw (read_loop-step fuel s size from bytes buffer (omega (arith, r.2)))
      (elim (Bool-cases (ltb j (s + 4))) [
        | inl t ↦
            (read_loop-before k fuel (s + 4) size from left got j next (ground arith)).0
            ∙ read_in bytes buffer from s j a (ground arith)
        | inr f ↦
            read_loop-in k fuel (s + 4) size from left got j next (ground arith) (omega arith)
            ∙ (cleared bytes (from + s) (from + j) ∙ ground arith)
      ])

-- Of every `int` that it reads, the loop clears the first byte and leaves the other three.
pub read_loop-left :
    (k fuel s size from : ℕ) (bytes buffer : Mem) (m t : ℕ)
    → Rounds k fuel s size
    → m < k
    → t < 4
    → (read_loop fuel s size from bytes buffer).0 (from + (s + 4 * m + t))
      ≡ (if t == 0 then 0 else bytes (from + (s + 4 * m + t)))
read_loop-left zero fuel s size from bytes buffer m t r a b = absurd (omega arith)
read_loop-left (suc k) zero s size from bytes buffer m t r a b = absurd (omega (arith, r.0))
read_loop-left (suc k) (suc fuel) s size from bytes buffer zero t r a b =
    let next : Rounds k fuel (s + 4) size =
      (omega (arith, r.0), omega (arith, r.1), omega (arith, r.2)) in
    rw (read_loop-step fuel s size from bytes buffer (omega (arith, r.2))) (
      (read_loop-before k fuel (s + 4) size from (memset bytes (from + s) 0 1)
        (memcpy buffer s bytes (from + s) 4) (s + 4 * 0 + t) next (omega arith)).1
      ∙ (cleared bytes (from + s) (from + (s + 4 * 0 + t)) ∙ ground arith))
read_loop-left (suc k) (suc fuel) s size from bytes buffer (suc m) t r a b =
    let next : Rounds k fuel (s + 4) size =
      (omega (arith, r.0), omega (arith, r.1), omega (arith, r.2)) in
    let e : from + (s + 4 * suc m + t) ≡ from + (s + 4 + 4 * m + t) = omega arith in
    let stays : memset bytes (from + s) 0 1 (from + (s + 4 + 4 * m + t))
        ≡ bytes (from + (s + 4 + 4 * m + t)) =
      cleared bytes (from + s) (from + (s + 4 + 4 * m + t)) ∙ ground arith in
    rw (read_loop-step fuel s size from bytes buffer (omega (arith, r.2)), e)
      (read_loop-left k fuel (s + 4) size from (memset bytes (from + s) 0 1)
          (memcpy buffer s bytes (from + s) 4) m t next (omega arith) b
        ∙ ground (arith, stays))
