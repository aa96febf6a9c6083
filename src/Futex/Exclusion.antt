-- ===== src/Futex/Exclusion.antt =====
-- Mutual exclusion of `udo_futex_lock`
use libcando.Base.{ℕ, ◌≡◌, refl, ◌≢◌, ◌⊎◌, inr, arith}
use libcando.Futex.{unlocked}
use libcando.Futex.Threads.{
  Pc, out, asleep, held, Move, win, win_late, unlock, System, update, woken, moves, wakes, Reach,
  start, later,
}

-- At most one thread holds the lock, and none does while the word says that it is free.
pub record Exclusive (s : System) : Type 0 where
  pub one : (i j : ℕ) → s.pc i ≡ held → s.pc j ≡ held → i ≡ j
  pub free : (i : ℕ) → s.word ≡ unlocked → s.pc i ≢ held

-- A thread takes the lock only when it is free.
taken : {w v : ℕ} {p q : Pc} → Move w p v q → q ≡ held → (w ≡ unlocked) × (v ≢ unlocked)
taken (win e) h = (e, omega arith)
taken (win_late e) h = (e, omega arith)
taken m h = ground arith

-- The word says that the lock is free only after it did before, or when the holder gave it back.
given : {w v : ℕ} {p q : Pc} → Move w p v q → v ≡ unlocked → (w ≡ unlocked) ⊎ (p ≡ held)
given (unlock) h = inr refl
given m h = ground arith

moves-Exclusive :
    {s : System} (i : ℕ) {w : ℕ} {p : Pc}
    → Move s.word (s.pc i) w p
    → Exclusive s
    → Exclusive (record { word = w; pc = update s.pc i p })
moves-Exclusive {s} i {w} {p} m e = record {
  one = λ a b ha hb.
      ground (arith, taken m, e.one i a, e.one a i, e.one i b, e.one a b, e.free a, e.free b);
  free = λ a hw ha. ground (arith, taken m, given m, e.one i a, e.free a);
}

woken-held : (p : Pc) → woken p ≡ held → p ≡ held
woken-held asleep h = ground arith
woken-held p h = h

wakes-Exclusive :
    {s : System} (i : ℕ)
    → Exclusive s
    → Exclusive (record s { pc = λ j. update (λ k. woken (s.pc k)) i out j })
wakes-Exclusive {s} i e = record {
  one = λ a b ha hb. ground (arith, woken-held (s.pc a), woken-held (s.pc b), e.one a b);
  free = λ a hw ha. ground (arith, woken-held (s.pc a), e.free a hw);
}

-- However the threads' accesses and system calls interleave, forced unlocks, failing weak
-- exchanges and spurious wake-ups included, at most one thread is inside the lock; and while the
-- word is 0, none is. Threads call `udo_futex_unlock` only from inside.
pub reach-Exclusive : {s : System} → Reach s → Exclusive s
reach-Exclusive start = record { one = λ i j a b. ground arith; free = λ i hw. ground arith }
reach-Exclusive (later r (moves i m)) = moves-Exclusive i m (reach-Exclusive r)
reach-Exclusive (later r (wakes i _)) = wakes-Exclusive i (reach-Exclusive r)
