-- ===== src/Futex/Condition/Seen.antt =====
-- What a thread knows that leaves `udo_futex_wait_cond`
use mathlib.Core.Path.{subst}
use libcando.Base.{ℕ, ◌≡◌, refl, ◌==◌, Bool, true, false, Bool-cases, inl, inr}
use libcando.Futex.Condition.{
  Pc, out, met, Move, hit, hit_late, change, System, update, woken, asleep, Step, moves, wakes,
  init, Steps, stop, go,
}

-- The condition holds for a thread that has seen it.
Saw : Bool → Pc → Type 0
Saw c met = c ≡ true
Saw c p = Unit {0}

move-Saw : {w : ℕ} {c d : Bool} {p q : Pc} → Move w c p d q → Saw d q
unfolding Saw
move-Saw (hit e) = e
move-Saw (hit_late e) = e
move-Saw m = tt

Saw-true : (p : Pc) → Saw true p
unfolding Saw
Saw-true met = refl
Saw-true p = tt

-- A step does not make the condition false.
kept-Saw : {w : ℕ} {c d : Bool} {p q : Pc} (a : Pc) → Move w c p d q → Saw c a → Saw d a
kept-Saw a change h = Saw-true a
kept-Saw a m h = h

woken-Saw : (c : Bool) (p : Pc) → Saw c p → Saw c (woken p)
unfolding Saw
woken-Saw c (asleep v) h = tt
woken-Saw c p h = h

update-Saw :
    (c : Bool) (pc : ℕ → Pc) (i : ℕ) (p : Pc)
    → Saw c p
    → ((a : ℕ) → Saw c (pc a))
    → (a : ℕ) → Saw c (update pc i p a)
update-Saw c pc i p h all a = elim (Bool-cases (i == a)) [ inl t ↦ rw t h | inr f ↦ rw f (all a) ]

out-Saw : (c : Bool) → Saw c out
unfolding Saw
out-Saw c = tt

step-Saw :
    (s t : System) → Step s t → ((a : ℕ) → Saw s.cond (s.pc a)) → (a : ℕ) → Saw t.cond (t.pc a)
step-Saw s t (moves i {c} {p} m) h =
    update-Saw c s.pc i p (move-Saw m) (λ a. kept-Saw (s.pc a) m (h a))
step-Saw s t (wakes i e) h =
    update-Saw s.cond (λ k. woken (s.pc k)) i out (out-Saw s.cond)
      (λ a. woken-Saw s.cond (s.pc a) (h a))

Steps-Saw : (word : ℕ) (t : System) → Steps (init word) t → (a : ℕ) → Saw t.cond (t.pc a)
Steps-Saw word t stop = λ a. out-Saw false
Steps-Saw word u (go {t} s x) = step-Saw t u x (Steps-Saw word t s)

-- Threads wait for one condition that, once it is true, stays true: however they interleave with
-- those that make it true, a thread that leaves the wait without an interruption finds it true.
pub met-true : (word : ℕ) (t : System) (i : ℕ) → Steps (init word) t → t.pc i ≡ met → t.cond ≡ true
unfolding Saw
met-true word t i s e = subst (λ p. Saw t.cond p) e (Steps-Saw word t s i)
