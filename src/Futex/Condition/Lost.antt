-- ===== src/Futex/Condition/Lost.antt =====
-- A wake-up between the test of the condition and FUTEX_WAIT
use libcando.Base.{ℕ, ◌≡◌, refl, sym, ap, ◌∙◌, ◌≢◌, ◌==◌, Bool, true, arith, Bool-cases, inl, inr}
use libcando.Futex.{unlock_force}
use libcando.Futex.Condition.{
  Pc, out, tested, load, drowsy, asleep, changed, Move, tire, fetch, sleep, change, System, update,
  woken, Step, moves, wakes, Steps, stop, go,
}

-- A step of thread `i`, which stands at `p`
move_at :
    (s : System) (i : ℕ) (p : Pc) {c : Bool} {q : Pc}
    → s.pc i ≡ p
    → Move s.word s.cond p c q
    → Step s (record s { cond = c; pc = update s.pc i q })
move_at s i p e m = moves i (rw (e) m)

update-same : (pc : ℕ → Pc) (i : ℕ) (p : Pc) → update pc i p i ≡ p
update-same pc i p = ground arith

update-other : (pc : ℕ → Pc) (i j : ℕ) (p : Pc) → i ≢ j → update pc i p j ≡ pc j
update-other pc i j p n = ground arith

-- Thread `j` makes the condition true and wakes the sleepers.
abbrev notified : System → ℕ → System
notified s j = record s {
  cond = true;
  pc = λ k. update (λ a. woken (update s.pc j changed a)) j out k;
}

abbrev put : System → ℕ → Pc → System
put s i p = record s { pc = update s.pc i p }

notify : (s : System) (j : ℕ) → s.pc j ≡ out → Steps s (notified s j)
notify s j e = go (go stop (move_at s j out e change)) (wakes j (update-same s.pc j changed))

-- A thread that has seen the condition false falls asleep.
fall_asleep :
    (s : System) (i : ℕ)
    → s.word ≢ unlock_force
    → s.pc i ≡ tested
    → Steps s (put (put (put s i load) i (drowsy s.word)) i (asleep s.word))
fall_asleep s i n e =
    let a = put s i load in
    let b = put a i (drowsy s.word) in
    go
      (go (go stop (move_at s i tested e (tire n)))
        (move_at a i load (update-same s.pc i load) fetch))
      (move_at b i (drowsy s.word) (update-same a.pc i (drowsy s.word)) (sleep refl))

append : {s t u : System} → Steps s t → Steps t u → Steps s u
append a stop = a
append a (go b x) = go (append a b) x

woken-changed : (p : Pc) → p ≢ changed → woken p ≢ changed
woken-changed (asleep v) n h = absurd (ground arith)
woken-changed p n h = n h

update-quiet :
    (pc : ℕ → Pc) (i : ℕ) (p : Pc)
    → p ≢ changed
    → ((k : ℕ) → pc k ≢ changed)
    → (k : ℕ) → update pc i p k ≢ changed
update-quiet pc i p n all k = elim (Bool-cases (i == k)) [
  | inl t ↦ rw (t) n
  | inr f ↦ rw (f) (all k)
]

notified-quiet :
    (s : System) (j : ℕ) → ((k : ℕ) → s.pc k ≢ changed) → (k : ℕ) → (notified s j).pc k ≢ changed
notified-quiet s j all k = elim (Bool-cases (j == k)) [
  | inl t ↦ rw (t) (λ h. ground arith)
  | inr f ↦ rw (f) (woken-changed (s.pc k) (all k))
]

-- A thread that has just found the condition false while the word is not the forced unlock, and
-- another outside; no thread is about to wake the sleepers. Then the other may make the condition
-- true and wake everybody before the first one sleeps: that one sleeps with the condition true, and
-- no thread is about to wake it, as udo_futex_wake_cond does not change the word.
pub wake_lost :
    (s : System) (i j : ℕ)
    → s.word ≢ unlock_force
    → i ≢ j
    → s.pc i ≡ tested
    → s.pc j ≡ out
    → ((k : ℕ) → s.pc k ≢ changed)
    → (t : System) × Steps s t
      × (t.pc i ≡ asleep s.word)
      × (t.cond ≡ true)
      × ((k : ℕ) → t.pc k ≢ changed)
wake_lost s i j n ne ei ej quiet =
    let t = notified s j in
    let slept = put (put (put t i load) i (drowsy s.word)) i (asleep s.word) in
    (
      slept,
      append (notify s j ej) (
          fall_asleep t i n (
            update-other (λ a. woken (update s.pc j changed a)) j i out (λ h. ne (sym h))
            ∙ ap woken (update-other s.pc j i changed (λ h. ne (sym h)) ∙ ei))),
      update-same (put (put t i load) i (drowsy s.word)).pc i (asleep s.word),
      refl,
      update-quiet (put (put t i load) i (drowsy s.word)).pc i (asleep s.word) (λ h. ground arith)
          (update-quiet (put t i load).pc i (drowsy s.word) (λ h. ground arith)
            (update-quiet t.pc i load (λ h. ground arith) (notified-quiet s j quiet))),
    )
