-- ===== src/Futex/Wakeup.antt =====
-- No lost wake-up among the threads of `udo_futex_lock`
use libcando.Base.{ℕ, ◌≡◌, refl, sym, ◌∙◌, ◌≢◌, ◌⊎◌, inl, inr, arith}
use libcando.Futex.{locked}
use libcando.Futex.Threads.{
  Pc, out, asleep, held, waking, Move, sleep, unlock, System, update, woken, moves, wakes, Reach,
  start, later,
}

-- While the word says that the lock is taken somebody has it, and a thread that sleeps does so
-- because of that, or is about to be woken.
record Watched (s : System) : Type 0 where
  taken : s.word ≡ locked → (j : ℕ) × s.pc j ≡ held
  sleeps : (i : ℕ) → s.pc i ≡ asleep → (s.word ≡ locked) ⊎ ((j : ℕ) × s.pc j ≡ waking)

kept : {w v : ℕ} {p q : Pc} → Move w p v q → v ≡ locked → (q ≡ held) ⊎ ((w ≡ locked) × (p ≢ held))
kept unlock h = ground arith
kept m h = ground arith

alert :
    {w v : ℕ} {p q : Pc}
    → Move w p v q
    → (v ≡ locked) ⊎ ((q ≡ waking) ⊎ ((w ≡ v) × (p ≢ waking) × (q ≢ asleep)))
alert unlock = inr (inl refl)
alert (sleep e) = inl e
alert m = ground arith

update-same : (pc : ℕ → Pc) (i : ℕ) (p : Pc) → update pc i p i ≡ p
update-same pc i p = ground arith

update-other :
    (pc : ℕ → Pc) (i : ℕ) (p : Pc) (j : ℕ) (q : Pc) → pc i ≢ q → pc j ≡ q → update pc i p j ≡ q
update-other pc i p j q n h = ground arith

update-was :
    (pc : ℕ → Pc) (i : ℕ) (p : Pc) (j : ℕ) (q : Pc) → p ≢ q → update pc i p j ≡ q → pc j ≡ q
update-was pc i p j q n h = ground arith

moves-Watched :
    {s : System} (i : ℕ) {w : ℕ} {p : Pc}
    → Move s.word (s.pc i) w p
    → Watched s
    → Watched (record { word = w; pc = update s.pc i p })
moves-Watched {s} i {w} {p} m e = record {
  taken = λ h. elim (kept m h) [
    | inl q ↦ (i, update-same s.pc i p ∙ q)
    | inr (a, n) ↦ (let (j, hj) = e.taken a in (j, update-other s.pc i p j held n hj))
  ];
  sleeps = λ a ha. elim (alert m) [
    | inl q ↦ inl q
    | inr (inl q) ↦ inr (i, update-same s.pc i p ∙ q)
    | inr (inr (q, n, k)) ↦ elim (e.sleeps a (update-was s.pc i p a asleep k ha)) [
      | inl t ↦ inl (sym q ∙ t)
      | inr (j, hj) ↦ inr (j, update-other s.pc i p j waking n hj)
    ]
  ];
}

woken-held : (p : Pc) → p ≡ held → woken p ≡ held
woken-held held h = refl
woken-held p h = ground arith

woken-asleep : (p : Pc) → woken p ≢ asleep
woken-asleep asleep = λ h. ground arith
woken-asleep p = λ h. ground arith

wakes-Watched :
    {s : System} (i : ℕ)
    → s.pc i ≡ waking
    → Watched s
    → Watched (record s { pc = λ j. update (λ k. woken (s.pc k)) i out j })
wakes-Watched {s} i hi e = record {
  taken = λ h.
      let (j, hj) = e.taken h in
      (j, update-other (λ k. woken (s.pc k)) i out j held (ground arith) (woken-held (s.pc j) hj));
  sleeps = λ a ha. ground (arith, woken-asleep (s.pc a));
}

reach-Watched : {s : System} → Reach s → Watched s
reach-Watched start = record { taken = λ _. (0, refl); sleeps = λ i h. ground arith }
reach-Watched (later r (moves i m)) = moves-Watched i m (reach-Watched r)
reach-Watched (later r (wakes i h)) = wakes-Watched i h (reach-Watched r)

-- Whenever a thread of `udo_futex_lock` sleeps, some thread is inside the lock and has yet to give
-- it back, or has set the word and is about to wake all sleepers.
pub reach_asleep :
    {s : System}
    → Reach s
    → (i : ℕ) → s.pc i ≡ asleep
    → (j : ℕ) × ((s.pc j ≡ held) ⊎ (s.pc j ≡ waking))
reach_asleep r i h = elim ((reach-Watched r).sleeps i h) [
  | inl t ↦ (let (j, hj) = (reach-Watched r).taken t in (j, inl hj))
  | inr (j, hj) ↦ (j, inr hj)
]
