-- ===== src/Shm/Transfer/Bytes.antt =====
-- The values that the copies of src/shm.c move
use libcando.Base.{ℕ, zero, suc, ◌+◌, ◌-◌, ◌<◌, inl, inr, arith, Bool-cases, ltb}
use libcando.Base.Memory.{Mem, inside, memcpy, memset}
use libcando.Shm.Transfer.{write_loop}

-- Bytes are less than 256.
abbrev pub AllBytes : Mem → Type 0
AllBytes bytes = (i : ℕ) → bytes i < 256

memcpy-AllBytes :
    (m src : Mem) (to from n : ℕ) → AllBytes m → AllBytes src → AllBytes (memcpy m to src from n)
unfolding memcpy
memcpy-AllBytes m src to from n a b i = elim (Bool-cases (inside to n i)) [
  | inl t ↦ rw t (b (from + (i - to)))
  | inr f ↦ rw f (a i)
]

pub write_loop-AllBytes :
    (n s size to : ℕ) (bytes buffer : Mem)
    → AllBytes bytes
    → AllBytes buffer
    → AllBytes (write_loop n s size to bytes buffer)
unfolding write_loop
write_loop-AllBytes zero s size to bytes buffer a b = a
write_loop-AllBytes (suc n) s size to bytes buffer a b = elim (Bool-cases (ltb s size)) [
  | inl t ↦ rw t (
      write_loop-AllBytes n (s + 4) size to (memcpy bytes (to + s) buffer s 4) buffer
        (memcpy-AllBytes bytes buffer (to + s) s 4 a b) b)
  | inr f ↦ rw f a
]

pub memset-AllBytes : (bytes : Mem) (p n : ℕ) → AllBytes bytes → AllBytes (memset bytes p 0 n)
unfolding memset
memset-AllBytes bytes p n h i = let b = h i in ground (arith, b)
