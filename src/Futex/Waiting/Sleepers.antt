-- ===== src/Futex/Waiting/Sleepers.antt =====
-- No lost wake-up among the threads of `udo_futex_wait`
use libcando.Base.{ℕ, ◌≡◌, refl, ap, sym, ◌∙◌, ◌≢◌, ◌⊎◌, inl, inr, ◌==◌, arith, Bool-cases}
use libcando.Futex.Waiting.{
  Pc, out, loaded, drowsy, asleep, waking, Move, miss_late, tire, sleep, wake, System, update,
  woken, moves, wakes, Reach, start, later,
}

-- What the value that a thread holds says
Missed : Pc → Type 0
Missed (loaded d v) = v ≢ d
Missed (drowsy d v) = v ≢ d
Missed (asleep d v) = v ≢ d
Missed p = Unit {0}

-- The value that a sleeper waits on
IsOn : ℕ → Pc → Type 0
IsOn w (asleep d v) = w ≡ v
IsOn w p = Unit {0}

record Watched (s : System) : Type 0 where
  missed : (i : ℕ) → Missed (s.pc i)
  watched : ((i : ℕ) → IsOn s.word (s.pc i)) ⊎ ((j : ℕ) × s.pc j ≡ waking)

move-Missed : {w v : ℕ} {p q : Pc} → Move w p v q → Missed p → Missed q
unfolding Missed
move-Missed (miss_late n) h = n
move-Missed (tire n) h = h
move-Missed (sleep e) h = h
move-Missed m h = tt

-- A step keeps the word, or its thread is about to wake the sleepers.
kept : {w v : ℕ} {p q : Pc} → Move w p v q → (q ≡ waking) ⊎ ((w ≡ v) × (p ≢ waking) × IsOn v q)
unfolding IsOn
kept wake = inl refl
kept (sleep e) = inr (refl, (λ h. ground arith), e)
kept m = inr (refl, (λ h. ground arith), tt)

update-same : (pc : ℕ → Pc) (i : ℕ) (p : Pc) → update pc i p i ≡ p
update-same pc i p = ground arith

update-all :
    (P : Pc → Type 0) (pc : ℕ → Pc) (i : ℕ) (p : Pc)
    → P p
    → ((a : ℕ) → P (pc a))
    → (a : ℕ) → P (update pc i p a)
update-all P pc i p h all a = elim (Bool-cases (i == a)) [ inl t ↦ rw t h | inr f ↦ rw f (all a) ]

update-other :
    (pc : ℕ → Pc) (i : ℕ) (p : Pc) (j : ℕ)
    → pc i ≢ waking
    → pc j ≡ waking
    → update pc i p j ≡ waking
update-other pc i p j n h = ground arith

moves-Watched :
    {s : System} (i : ℕ) {w : ℕ} {p : Pc}
    → Move s.word (s.pc i) w p
    → Watched s
    → Watched (record { word = w; pc = update s.pc i p })
moves-Watched {s} i {w} {p} m e = record {
  missed = update-all Missed s.pc i p (move-Missed m (e.missed i)) e.missed;
  watched = elim (kept m) [
    | inl q ↦ inr (i, update-same s.pc i p ∙ q)
    | inr (same, n, on) ↦ elim e.watched [
      | inl all ↦ inl (update-all (IsOn w) s.pc i p on (λ a. rw⁻¹ same (all a)))
      | inr (j, hj) ↦ inr (j, update-other s.pc i p j n hj)
    ]
  ];
}

woken-Missed : (p : Pc) → Missed p → Missed (woken p)
unfolding Missed
woken-Missed (asleep d v) h = tt
woken-Missed p h = h

woken-IsOn : (w : ℕ) (p : Pc) → IsOn w (woken p)
unfolding IsOn
woken-IsOn w (asleep d v) = tt
woken-IsOn w p = tt

out-both : (w : ℕ) → Missed out × IsOn w out
unfolding Missed IsOn
out-both w = (tt, tt)

wakes-Watched :
    {s : System} (i : ℕ)
    → Watched s
    → Watched (record s { pc = λ j. update (λ k. woken (s.pc k)) i out j })
wakes-Watched {s} i e = record {
  missed =
      update-all Missed (λ k. woken (s.pc k)) i out (out-both 0).0
        (λ a. woken-Missed (s.pc a) (e.missed a));
  watched = inl (
      update-all (IsOn s.word) (λ k. woken (s.pc k)) i out (out-both s.word).1
        (λ a. woken-IsOn s.word (s.pc a)));
}

reach-Watched : {word : ℕ} {s : System} → Reach word s → Watched s
reach-Watched start = record { missed = λ i. (out-both 0).0; watched = inl (λ i. (out-both _).1) }
reach-Watched (later r (moves i m)) = moves-Watched i m (reach-Watched r)
reach-Watched (later r (wakes i h)) = wakes-Watched i (reach-Watched r)

-- Whatever values the threads wait for and store, in any order of their steps: while a thread of
-- `udo_futex_wait` sleeps, the word is not the value that it waits for, unless a thread that has
-- stored a value is about to wake all sleepers.
pub reach_waits :
    {word : ℕ} {s : System}
    → Reach word s
    → (i d v : ℕ) → s.pc i ≡ asleep d v
    → (s.word ≢ d) ⊎ ((j : ℕ) × s.pc j ≡ waking)
unfolding Missed IsOn
reach_waits {word} {s} r i d v h =
    let missed : v ≢ d = rw⁻¹ (ap Missed h) ((reach-Watched r).missed i) in
    elim (reach-Watched r).watched [
      | inl all ↦
          let on : s.word ≡ v = rw⁻¹ (ap (IsOn s.word) h) (all i) in inl (λ e. missed (sym on ∙ e))
      | inr pending ↦ inr pending
    ]
