-- ===== src/Futex/Waiting.antt =====
-- Threads on one futex in `udo_futex_wait`, each for a value of its own, against `udo_futex_wake`,
-- an access or a system call at a time. A sleeper may wake for no reason.
pub mod Sleepers
use libcando.Base.{ℕ, ◌+◌, ◌<◌, ◌≤◌, ◌≡◌, ◌≢◌, ◌==◌, if◌then◌else◌}
use libcando.Futex.{unlock_force, contention_loop_cnt}

-- Where a thread stands that waits for `d`, with the value `v` that it has loaded
pub data Pc : Type 0 where
  out : Pc
  poll : (d i : ℕ) → Pc  -- before the load of round `i`
  polled : (d i : ℕ) → Pc  -- before the test for a forced unlock of round `i`
  load : (d : ℕ) → Pc  -- before the load of `wait_val`
  loaded : (d v : ℕ) → Pc  -- before the test for a forced unlock after it
  drowsy : (d v : ℕ) → Pc  -- before FUTEX_WAIT
  asleep : (d v : ℕ) → Pc
  met : (d : ℕ) → Pc  -- returned from `udo_futex_wait` without an error
  waking : Pc  -- before FUTEX_WAKE

-- A step of one thread that concerns only the word and itself
pub data Move (word : ℕ) : Pc → ℕ → Pc → Type 0 where
  wait : {d : ℕ} → Move word out word (poll d 0)
  hit : {d i : ℕ} → word ≡ d → Move word (poll d i) word (met d)
  miss : {d i : ℕ} → word ≢ d → Move word (poll d i) word (polled d i)
  interrupted : {d i : ℕ} → word ≡ unlock_force → Move word (polled d i) word out
  again :
      {d i : ℕ}
      → word ≢ unlock_force
      → i + 1 < contention_loop_cnt
      → Move word (polled d i) word (poll d (i + 1))
  give_up :
      {d i : ℕ}
      → word ≢ unlock_force
      → contention_loop_cnt ≤ i + 1
      → Move word (polled d i) word (load d)
  hit_late : {d : ℕ} → word ≡ d → Move word (load d) word (met d)
  miss_late : {d : ℕ} → word ≢ d → Move word (load d) word (loaded d word)
  interrupted_late : {d v : ℕ} → word ≡ unlock_force → Move word (loaded d v) word out
  tire : {d v : ℕ} → word ≢ unlock_force → Move word (loaded d v) word (drowsy d v)
  sleep : {d v : ℕ} → word ≡ v → Move word (drowsy d v) word (asleep d v)
  stay : {d v : ℕ} → word ≢ v → Move word (drowsy d v) word (load d)
  stir : {d v : ℕ} → Move word (asleep d v) word (load d)
  leave : {d : ℕ} → Move word (met d) word out
  wake : {desired : ℕ} → Move word out desired waking

-- The word and every thread
pub record System : Type 0 where
  pub word : ℕ
  pub pc : ℕ → Pc

abbrev pub update : (ℕ → Pc) → ℕ → Pc → ℕ → Pc
update pc i p j = if i == j then p else pc j

-- FUTEX_WAKE of INT_MAX threads
abbrev pub woken : Pc → Pc
woken (asleep d v) = load d
woken p = p

pub data Step (s : System) : System → Type 0 where
  moves :
      (i : ℕ) {w : ℕ} {p : Pc}
      → Move s.word (s.pc i) w p
      → Step s (record { word = w; pc = update s.pc i p })
  wakes :
      (i : ℕ)
      → s.pc i ≡ waking
      → Step s (record s { pc = λ j. update (λ k. woken (s.pc k)) i out j })

-- A futex with any value, which no thread uses
abbrev pub init : ℕ → System
init word = record { word = word; pc = λ _. out }

pub data Reach (word : ℕ) : System → Type 0 where
  start : Reach word (init word)
  later : {s t : System} → Reach word s → Step s t → Reach word t
