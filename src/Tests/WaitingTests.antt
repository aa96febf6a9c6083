-- ===== src/Tests/WaitingTests.antt =====
-- `udo_futex_wait` of a value that the futex does not have
use libcando.Base.{ℕ, zero, suc, ◌+◌, ◌-◌, ◌<◌, ◌≡◌, ◌≢◌, ◌⊎◌, refl, arith}
use libcando.Futex.{contention_loop_cnt}
use libcando.Futex.Waiting.{
  Pc, polled, asleep, waking, Move, wait, miss, again, give_up, miss_late, tire, sleep, System,
  moves, init, Reach, start, later,
}
use libcando.Futex.Waiting.Sleepers.{reach_waits}

-- A system in which thread 1 stands at `p`, while the word is 0
abbrev Stands : Pc → Type 0
Stands p = (s : System) × Reach 0 s × (s.word ≡ 0) × (s.pc 1 ≡ p)

step : {p q : Pc} → Move 0 p 0 q → Stands p → Stands q
step {p} {q} m (s, r, w, h) = (_, later r (moves 1 (rw (w, h) m)), refl, refl)

-- Thread 1 waits for 5, and misses it in every round up to `n`.
rounds : (n : ℕ) → n < contention_loop_cnt → Stands (polled 5 n)
rounds zero h = step (miss (λ e. absurd (omega arith))) (step wait (init 0, start, refl, refl))
rounds (suc n) h =
    let e : suc n ≡ n + 1 = omega arith in
    rw e (
      step (miss (λ e. absurd (omega arith)))
        (step (again (λ e. absurd (omega arith)) (omega arith)) (rounds n (omega arith))))

sleeper : Stands (asleep 5 0)
sleeper = step (sleep refl) (
    step (tire (λ e. absurd (omega arith))) (
      step (miss_late (λ e. absurd (omega arith))) (
        step (give_up (λ e. absurd (omega arith)) (omega arith))
          (rounds (contention_loop_cnt - 1) (omega arith)))))

reach_waits_example : (sleeper.0.word ≢ 5) ⊎ ((j : ℕ) × sleeper.0.pc j ≡ waking)
reach_waits_example = reach_waits sleeper.1 1 5 0 sleeper.3
