-- ===== src/Jpool/Threads.antt =====
-- `udo_jpool_add_job` and `udo_jpool_wait` on one queue against `p_run_thread`, one access to
-- shared memory at a time, in any order. There is one caller: the pool's functions do not lock. A
-- thread that sleeps in the kernel is one that makes no step. `udo_jpool_destroy` is not among the
-- steps.
use libcando.Base.{ℕ, ◌≡◌, ◌≢◌, ◌<◌, ◌≤◌, true, false, List, [], ◌∷◌, ◌++◌}
use libcando.Jpool.{
  Job, Queue, unlock_force, is_full, reset_job_free, reset_job_count, reset_front, reset_rear,
  add_job_count, sub_job_count, add_rear, add_front, put_func, put_arg, job_at,
}

-- What follows `p_queue_wait`: the rest of `udo_jpool_add_job`, or the return of `udo_jpool_wait`.
pub data Next : Type 0 where
  adding : Job → Next
  returning : Next

-- Where the caller stands.
pub data Caller : Type 0 where
  out : Caller
  entered : Job → Caller  -- before `p_queue_full`
  waiting : Next → Caller  -- the loop of `p_queue_wait`
  reset1 reset2 reset3 reset4 : Next → Caller  -- before each store of `p_queue_reset`
  reserve : Job → Caller  -- before `p_queue_add_rear`
  func_of : (off : ℕ) → Job → Caller  -- before `job->func = func`
  arg_of : (off : ℕ) → Job → Caller  -- before `job->arg = arg`
  counting : Caller  -- before `p_queue_add_job_count`

abbrev pub after : Next → Caller
after (adding j) = reserve j
after returning = out

-- A step of the caller, with the jobs that it hands over.
pub data Call (q : Queue) : Caller → Queue → Caller → List Job → Type 0 where
  add : (j : Job) → j.func ≢ 0 → j.arg ≢ 0 → Call q out q (entered j) (j ∷ [])
  wait : Call q out q (waiting returning) []
  full : {j : Job} → is_full q ≡ true → Call q (entered j) q (waiting (adding j)) []
  not_full : {j : Job} → is_full q ≡ false → Call q (entered j) q (reserve j) []
  busy : {n : Next} → q.job_count ≢ 0 → Call q (waiting n) q (waiting n) []
  idle : {n : Next} → q.job_count ≡ 0 → Call q (waiting n) q (reset1 n) []
  store_job_free : {n : Next} → Call q (reset1 n) (reset_job_free q) (reset2 n) []
  store_job_count : {n : Next} → Call q (reset2 n) (reset_job_count q) (reset3 n) []
  store_front : {n : Next} → Call q (reset3 n) (reset_front q) (reset4 n) []
  store_rear : {n : Next} → Call q (reset4 n) (reset_rear q) (after n) []
  take_slot : {j : Job} → Call q (reserve j) (add_rear q) (func_of q.rear j) []
  store_func :
      {off : ℕ} {j : Job} → Call q (func_of off j) (put_func q off j.func) (arg_of off j) []
  store_arg : {off : ℕ} {j : Job} → Call q (arg_of off j) (put_arg q off j.arg) counting []
  count : Call q counting (add_job_count q) out []

-- Where the worker stands.
pub data Worker : Type 0 where
  loop : Worker  -- before `p_queue_can_loop`
  poll : Worker  -- before the load of `rear` in `p_queue_can_get_job`
  got_rear : (r : ℕ) → Worker  -- before the load of `front`
  unready : Worker  -- before the test for a forced unlock
  fetch : Worker  -- before `p_queue_add_front`
  got_job : (off : ℕ) → Worker  -- before `if (job->func)`
  calling : (off : ℕ) → Worker  -- before `job->func(job->arg)`
  clear_func : (off : ℕ) → Worker  -- before `job->func = NULL`
  clear_arg : (off : ℕ) → Worker  -- before `job->arg = NULL`
  finish : Worker  -- before `p_queue_sub_job_count`
  stopped : Worker

-- A step of the worker, with the jobs that it runs.
pub data Work (q : Queue) : Worker → Queue → Worker → List Job → Type 0 where
  go_on : q.job_free ≢ unlock_force → Work q loop q poll []
  stop : q.job_free ≡ unlock_force → Work q loop q stopped []
  load_rear : Work q poll q (got_rear q.rear) []
  ready : {r : ℕ} → q.front < r → Work q (got_rear r) q fetch []
  not_ready : {r : ℕ} → r ≤ q.front → Work q (got_rear r) q unready []
  forced : q.job_free ≡ unlock_force → Work q unready q fetch []
  again : q.job_free ≢ unlock_force → Work q unready q poll []
  get_job : Work q fetch (add_front q) (got_job q.front) []
  null_job : {off : ℕ} → q.func off ≡ 0 → Work q (got_job off) q finish []
  some_job : {off : ℕ} → q.func off ≢ 0 → Work q (got_job off) q (calling off) []
  run : {off : ℕ} → Work q (calling off) q (clear_func off) (job_at q off ∷ [])
  null_func : {off : ℕ} → Work q (clear_func off) (put_func q off 0) (clear_arg off) []
  null_arg : {off : ℕ} → Work q (clear_arg off) (put_arg q off 0) finish []
  uncount : Work q finish (sub_job_count q) loop []

-- The queue and both threads, with the jobs handed over and the jobs run, oldest first.
pub record System : Type 0 where
  pub queue : Queue
  pub caller : Caller
  pub worker : Worker
  pub added : List Job
  pub ran : List Job

pub data Step (s : System) : System → Type 0 where
  calls :
      {q : Queue} {c : Caller} {js : List Job}
      → Call s.queue s.caller q c js
      → Step s (record s { queue = q; caller = c; added = s.added ++ js })
  works :
      {q : Queue} {w : Worker} {js : List Job}
      → Work s.queue s.worker q w js
      → Step s (record s { queue = q; worker = w; ran = s.ran ++ js })

-- After `p_queue_reset` in `udo_jpool_create`, on zeroed memory
abbrev pub fresh : ℕ → Queue
fresh size = record {
  job_free = 0;
  job_count = 0;
  front = 0;
  rear = 0;
  size = size;
  func = λ _. 0;
  arg = λ _. 0;
}

abbrev pub init : ℕ → System
init size = record { queue = fresh size; caller = out; worker = loop; added = []; ran = [] }

pub data Reach (size : ℕ) : System → Type 0 where
  start : Reach size (init size)
  later : {s t : System} → Reach size s → Step s t → Reach size t
