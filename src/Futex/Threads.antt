-- ===== src/Futex/Threads.antt =====
-- Threads on one futex, interleaved an access or a system call at a time: `udo_futex_lock`,
-- `udo_futex_unlock` and `udo_futex_unlock_force`. The kernel checks the word and puts a thread to
-- sleep in one step; a weak compare-exchange may fail, and a sleeper may wake, for no reason.
use libcando.Base.{ℕ, ◌+◌, ◌<◌, ◌≤◌, ◌≡◌, ◌≢◌, ◌==◌, if◌then◌else◌}
use libcando.Futex.{locked, unlocked, unlock_force, contention_loop_cnt}

-- Where a thread stands.
pub data Pc : Type 0 where
  out : Pc
  spin : (i : ℕ) → Pc  -- before the weak compare-exchange of round `i`
  tested : (i : ℕ) → Pc  -- before the test for a forced unlock of round `i`
  retry : Pc  -- before the strong compare-exchange
  retried : Pc  -- before the test for a forced unlock after it
  drowsy : Pc  -- before FUTEX_WAIT
  asleep : Pc
  held : Pc  -- returned from `udo_futex_lock` with the lock
  waking : Pc  -- before FUTEX_WAKE

-- A step of one thread that concerns only the word and itself.
pub data Move (word : ℕ) : Pc → ℕ → Pc → Type 0 where
  lock : Move word out word (spin 0)
  win : {i : ℕ} → word ≡ unlocked → Move word (spin i) locked held
  miss : {i : ℕ} → Move word (spin i) word (tested i)
  interrupted : {i : ℕ} → word ≡ unlock_force → Move word (tested i) word out
  again :
      {i : ℕ}
      → word ≢ unlock_force
      → i + 1 < contention_loop_cnt
      → Move word (tested i) word (spin (i + 1))
  give_up :
      {i : ℕ} → word ≢ unlock_force → contention_loop_cnt ≤ i + 1 → Move word (tested i) word retry
  win_late : word ≡ unlocked → Move word retry locked held
  miss_late : word ≢ unlocked → Move word retry word retried
  interrupted_late : word ≡ unlock_force → Move word retried word out
  wait : word ≢ unlock_force → Move word retried word drowsy
  sleep : word ≡ locked → Move word drowsy word asleep
  stay : word ≢ locked → Move word drowsy word retry
  stir : Move word asleep word retry
  unlock : Move word held unlocked waking
  force : Move word out unlock_force waking

-- The word and every thread
pub record System : Type 0 where
  pub word : ℕ
  pub pc : ℕ → Pc

abbrev pub update : (ℕ → Pc) → ℕ → Pc → ℕ → Pc
update pc i p j = if i == j then p else pc j

-- FUTEX_WAKE of INT_MAX threads
abbrev pub woken : Pc → Pc
woken asleep = retry
woken p = p

pub data Step (s : System) : System → Type 0 where
  moves :
      (i : ℕ) {w : ℕ} {p : Pc}
      → Move s.word (s.pc i) w p
      → Step s (record { word = w; pc = update s.pc i p })
  wakes :
      (i : ℕ)
      → s.pc i ≡ waking
      → Step s (record s { pc = λ j. update (λ k. woken (s.pc k)) i out j })

-- A new futex is locked; thread 0, which created it, is the one to unlock it.
abbrev pub init : System
init = record { word = locked; pc = λ j. if 0 == j then held else out }

pub data Reach : System → Type 0 where
  start : Reach init
  later : {s t : System} → Reach s → Step s t → Reach t
