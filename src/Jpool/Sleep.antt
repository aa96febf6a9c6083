-- ===== src/Jpool/Sleep.antt =====
-- The queue of src/jpool.c with the sleep of its worker: `p_run_thread` waits by
-- `udo_futex_wait_cond` of include/futex.h, and the caller wakes it by `udo_futex_wake_cond`. With
-- `udo_jpool_destroy`, an access or a system call at a time. What concerns neither the sleep nor the
-- destruction are the steps of `Threads`.
pub mod Shadow
pub mod Hangs
pub mod Ends
use libcando.Base.{ℕ, ◌+◌, ◌<◌, ◌≤◌, ◌≡◌, ◌≢◌, Bool, true, false, List, [], ◌∷◌, ◌++◌}
use libcando.Jpool.{Job, Queue, unlock_force}
use libcando.Jpool.Threads.{
  returning, Caller, out, waiting, Call, busy, count, Worker, loop, poll, unready, fetch, stopped,
  Work, fresh,
}
use libcando.Futex.Condition.{spin_cnt}

-- Where the worker stands: awake, with the rounds that it has spun, or in the function
-- `p_udo_futex_wait_cond`.
pub data Place : Type 0 where
  awake : (i : ℕ) → Worker → Place
  load : Place  -- before the load of the word
  drowsy : (v : ℕ) → Place  -- before FUTEX_WAIT, with the value loaded
  asleep : (v : ℕ) → Place

-- The worker enters `udo_futex_wait_cond` behind the test of its loop.
abbrev pub rounds_after : Worker → ℕ → ℕ
rounds_after loop i = 0
rounds_after w i = i

-- A step of the worker. In the last round the macro has left its counted loop for the one that
-- sleeps.
pub data Nap (q : Queue) : Place → Queue → Place → List Job → Type 0 where
  acts :
      {i : ℕ} {w w' : Worker} {q' : Queue} {js : List Job}
      → w ≢ unready
      → Work q w q' w' js
      → Nap q (awake i w) q' (awake (rounds_after w i) w') js
  forces : {i : ℕ} → q.job_free ≡ unlock_force → Nap q (awake i unready) q (awake i fetch) []
  spins :
      {i : ℕ}
      → q.job_free ≢ unlock_force
      → i < spin_cnt
      → Nap q (awake i unready) q (awake (i + 1) poll) []
  tires : {i : ℕ} → q.job_free ≢ unlock_force → spin_cnt ≤ i → Nap q (awake i unready) q load []
  loads : Nap q load q (drowsy q.job_free) []
  sleeps : {v : ℕ} → q.job_free ≡ v → Nap q (drowsy v) q (asleep v) []
  stays : {v : ℕ} → q.job_free ≢ v → Nap q (drowsy v) q (awake spin_cnt poll) []
  stirs : {v : ℕ} → Nap q (asleep v) q (awake spin_cnt poll) []

-- FUTEX_WAKE
abbrev pub woken : Place → Place
woken (asleep v) = awake spin_cnt poll
woken p = p

-- The functions that the caller may be in: `udo_jpool_destroy`, or any other
pub data Mode : Type 0 where
  using : Mode
  ending : Mode

-- Where the caller stands. In `udo_jpool_destroy` it stands in `p_queue_wait` first.
pub data Owner : Type 0 where
  at : Mode → Caller → Owner
  alerting : Mode → Caller → Owner  -- before FUTEX_WAKE of `udo_futex_wake_cond`
  forcing : Owner  -- before the store of `udo_futex_unlock_force`
  forced : Owner  -- before its FUTEX_WAKE
  alerting_last : Owner  -- before FUTEX_WAKE of the last `udo_futex_wake_cond`
  joining : Owner  -- in `pthread_join`
  gone : Owner

abbrev pub owner_at : Mode → Caller → Owner
owner_at ending out = forcing
owner_at m c = at m c

-- The steps that `udo_futex_wake_cond` follows
pub alerts : {q q' : Queue} {c c' : Caller} {js : List Job} → Call q c q' c' js → Bool
alerts (busy more) = true
alerts count = true
alerts mv = false

abbrev pub owner_after : Bool → Mode → Caller → Owner
owner_after true m c = alerting m c
owner_after false m c = owner_at m c

-- A step of the caller that concerns the queue and itself
pub data Own (q : Queue) : Owner → Queue → Owner → List Job → Type 0 where
  calls :
      {m : Mode} {c c' : Caller} {q' : Queue} {js : List Job} (mv : Call q c q' c' js)
      → Own q (at m c) q' (owner_after (alerts mv) m c') js
  destroy : Own q (at using out) q (at ending (waiting returning)) []
  force : Own q forcing (record q { job_free = unlock_force }) forced []

-- A system call that wakes the worker
pub data Wake : Owner → Owner → Type 0 where
  alert : {m : Mode} {c : Caller} → Wake (alerting m c) (owner_at m c)
  force_alert : Wake forced alerting_last
  last_alert : Wake alerting_last joining

pub record System : Type 0 where
  pub queue : Queue
  pub owner : Owner
  pub place : Place
  pub added : List Job
  pub ran : List Job

pub data Step (s : System) : System → Type 0 where
  owns :
      {q : Queue} {o : Owner} {js : List Job}
      → Own s.queue s.owner q o js
      → Step s (record s { queue = q; owner = o; added = s.added ++ js })
  wakes : {o : Owner} → Wake s.owner o → Step s (record s { owner = o; place = woken s.place })
  naps :
      {q : Queue} {p : Place} {js : List Job}
      → Nap s.queue s.place q p js
      → Step s (record s { queue = q; place = p; ran = s.ran ++ js })
  joins :
      (i : ℕ) → s.owner ≡ joining → s.place ≡ awake i stopped → Step s (record s { owner = gone })

abbrev pub init : ℕ → System
init size = record {
  queue = fresh size;
  owner = at using out;
  place = awake 0 loop;
  added = [];
  ran = [];
}

pub data Reach (size : ℕ) : System → Type 0 where
  start : Reach size (init size)
  later : {s t : System} → Reach size s → Step s t → Reach size t
