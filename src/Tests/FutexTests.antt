-- ===== src/Tests/FutexTests.antt =====
-- src/futex.c at concrete words and interleavings
use libcando.Base.{ℕ, zero, suc, ◌+◌, ◌-◌, ◌<◌, ◌≡◌, refl, arith, ◌⊎◌}
use libcando.Futex.{CreateInfo, locked, contention_loop_cnt}
use libcando.Futex.Exclusion.{Exclusive, reach-Exclusive}
use libcando.Futex.Wakeup.{reach_asleep}
use libcando.Futex.Threads.{
  Pc, tested, asleep, held, waking, Move, lock, win, miss, again, give_up, miss_late, wait, sleep,
  unlock, System, moves, init, Reach, start, later,
}

abbrev info : CreateInfo
info = record { size = 4096; count = 2 }

-- Thread 0 unlocks, and thread 1 takes the lock.
handed_over : (s : System) × (s.pc 1 ≡ held) × Reach s
handed_over =
    (_, refl, later (later (later start (moves 0 unlock)) (moves 1 lock)) (moves 1 (win refl)))

reach-Exclusive_example : Exclusive (handed_over.0)
reach-Exclusive_example = reach-Exclusive handed_over.2

-- A system in which thread 1 stands at `p`, while the word is locked
abbrev Stands : Pc → Type 0
Stands p = (s : System) × Reach s × (s.word ≡ locked) × (s.pc 1 ≡ p)

step : {p q : Pc} → Move locked p locked q → Stands p → Stands q
step {p} {q} m (s, r, w, h) = (_, later r (moves 1 (rw (w, h) m)), refl, refl)

-- Thread 1 fails in every round up to `n`, as thread 0 keeps the lock.
rounds : (n : ℕ) → n < contention_loop_cnt → Stands (tested n)
rounds zero h = step miss (step lock (init, start, refl, refl))
rounds (suc n) h =
    let e : suc n ≡ n + 1 = omega arith in
    rw e
      (step miss (step (again (λ e. absurd (omega arith)) (omega arith)) (rounds n (omega arith))))

sleeper : Stands asleep
sleeper = step (sleep refl) (
    step (wait (λ e. absurd (omega arith))) (
      step (miss_late (λ e. absurd (omega arith))) (
        step (give_up (λ e. absurd (omega arith)) (omega arith))
          (rounds (contention_loop_cnt - 1) (omega arith)))))

reach_asleep_example : (j : ℕ) × ((sleeper.0.pc j ≡ held) ⊎ (sleeper.0.pc j ≡ waking))
reach_asleep_example = reach_asleep sleeper.1 1 sleeper.3
