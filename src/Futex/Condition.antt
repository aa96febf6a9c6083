-- ===== src/Futex/Condition.antt =====
-- Threads on one futex in `udo_futex_wait_cond`, which include/futex.h defines as a macro, against
-- threads that make the condition true and call `udo_futex_wake_cond`, an access or a system call at
-- a time. A sleeper may wake for no reason.
pub mod Lost
pub mod Seen
use libcando.Base.{ℕ, ◌+◌, ◌<◌, ◌≤◌, ◌≡◌, ◌≢◌, ◌==◌, if◌then◌else◌, Bool, true, false}
use libcando.Futex.{unlock_force}

-- The bound of the loop of the macro
abbrev pub spin_cnt : ℕ
spin_cnt = 999999999

-- Where a thread stands
pub data Pc : Type 0 where
  out : Pc
  poll : (i : ℕ) → Pc  -- before the test of the condition of round `i`
  polled : (i : ℕ) → Pc  -- before the test for a forced unlock of round `i`
  test : Pc  -- before the test of the condition in the loop that sleeps
  tested : Pc  -- before the test for a forced unlock after it
  load : Pc  -- before the load of `p_udo_futex_wait_cond`
  drowsy : (v : ℕ) → Pc  -- before FUTEX_WAIT, with the value loaded
  asleep : (v : ℕ) → Pc
  met : Pc  -- left the macro as the condition was true
  changed : Pc  -- made the condition true, before FUTEX_WAKE

-- A step of one thread that concerns only the word, the condition and itself
pub data Move (word : ℕ) (cond : Bool) : Pc → Bool → Pc → Type 0 where
  wait : Move word cond out cond (poll 0)
  hit : {i : ℕ} → cond ≡ true → Move word cond (poll i) cond met
  miss : {i : ℕ} → cond ≡ false → Move word cond (poll i) cond (polled i)
  interrupted : {i : ℕ} → word ≡ unlock_force → Move word cond (polled i) cond out
  again :
      {i : ℕ}
      → word ≢ unlock_force
      → i + 1 < spin_cnt
      → Move word cond (polled i) cond (poll (i + 1))
  give_up : {i : ℕ} → word ≢ unlock_force → spin_cnt ≤ i + 1 → Move word cond (polled i) cond test
  hit_late : cond ≡ true → Move word cond test cond met
  miss_late : cond ≡ false → Move word cond test cond tested
  interrupted_late : word ≡ unlock_force → Move word cond tested cond out
  tire : word ≢ unlock_force → Move word cond tested cond load
  fetch : Move word cond load cond (drowsy word)
  sleep : {v : ℕ} → word ≡ v → Move word cond (drowsy v) cond (asleep v)
  stay : {v : ℕ} → word ≢ v → Move word cond (drowsy v) cond test
  stir : {v : ℕ} → Move word cond (asleep v) cond test
  leave : Move word cond met cond out
  change : Move word cond out true changed

-- The word, the condition and every thread. No function here stores to the word.
pub record System : Type 0 where
  pub word : ℕ
  pub cond : Bool
  pub pc : ℕ → Pc

abbrev pub update : (ℕ → Pc) → ℕ → Pc → ℕ → Pc
update pc i p j = if i == j then p else pc j

-- FUTEX_WAKE of INT_MAX threads, in `udo_futex_wake_cond`
abbrev pub woken : Pc → Pc
woken (asleep v) = test
woken p = p

pub data Step (s : System) : System → Type 0 where
  moves :
      (i : ℕ) {c : Bool} {p : Pc}
      → Move s.word s.cond (s.pc i) c p
      → Step s (record s { cond = c; pc = update s.pc i p })
  wakes :
      (i : ℕ)
      → s.pc i ≡ changed
      → Step s (record s { pc = λ j. update (λ k. woken (s.pc k)) i out j })

-- The condition is false, and no thread uses the futex.
abbrev pub init : ℕ → System
init word = record { word = word; cond = false; pc = λ _. out }

pub data Steps (s : System) : System → Type 0 where
  stop : Steps s s
  go : {t u : System} → Steps s t → Step t u → Steps s u
