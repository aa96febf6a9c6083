-- ===== src/Jpool/Timely/Ledger.antt =====
-- Where every job is, while the worker takes its slots in time
use libcando.Base.{
  ℕ, ◌+◌, ◌-◌, ◌%◌, ◌^◌, ◌≤◌, ◌<◌, ◌≡◌, refl, ◌∙◌, ◌≢◌, arith, List, [], ◌∷◌, ◌++◌, length,
}
use libcando.Jpool.{Job, Queue, unlock_force, job_size}
use libcando.Jpool.Threads.{
  Next, adding, returning, Caller, out, entered, waiting, reset1, reset2, reset3, reset4, reserve,
  func_of, arg_of, counting, Worker, fetch, got_job, calling, clear_func, clear_arg, finish,
  stopped,
}
use libcando.Jpool.Fifo.{Slots}
use libcando.Jpool.Fifo.Slots.{Slots-length}
use libcando.Jpool.Timely.{written}

-- The jobs that the caller has in hand and not in full in the queue
abbrev pub next_hand : Next → List Job
next_hand (adding j) = j ∷ []
next_hand returning = []

abbrev pub hand : Caller → List Job
hand out = []
hand (entered j) = j ∷ []
hand (waiting n) = next_hand n
hand (reset1 n) = next_hand n
hand (reset2 n) = next_hand n
hand (reset3 n) = next_hand n
hand (reset4 n) = next_hand n
hand (reserve j) = j ∷ []
hand (func_of off j) = j ∷ []
hand (arg_of off j) = j ∷ []
hand counting = []

-- The slot of the first job that was not run
abbrev pub first : Queue → Worker → ℕ
first q (got_job off) = off
first q (calling off) = off
first q w = q.front

-- Jobs that were run and are still counted, and jobs that are not counted yet
abbrev pub debt : Worker → ℕ
debt (clear_func off) = 1
debt (clear_arg off) = 1
debt finish = 1
debt w = 0

abbrev pub uncounted : Caller → ℕ
uncounted counting = 1
uncounted c = 0

-- A worker that takes a slot has a job there. It has not stopped.
abbrev pub Busy : Worker → ℕ → Type 0
Busy fetch n = 0 < n
Busy (got_job off) n = 0 < n
Busy (calling off) n = 0 < n
Busy stopped n = ⊥
Busy w n = Unit {0}

-- The slot that the worker has taken lies before `front`.
abbrev pub Passed : Queue → Worker → Type 0
Passed q (got_job off) = q.front ≡ off + job_size
Passed q (calling off) = q.front ≡ off + job_size
Passed q (clear_func off) = off + job_size ≤ q.front
Passed q (clear_arg off) = off + job_size ≤ q.front
Passed q w = Unit {0}

-- The slot that the caller writes is the last before `rear`; no function in hand is NULL.
abbrev pub NextKnown : Next → Type 0
NextKnown (adding j) = j.func ≢ 0
NextKnown returning = Unit {0}

abbrev pub Hands : Queue → Caller → Type 0
Hands q out = Unit {0}
Hands q (entered j) = j.func ≢ 0
Hands q (waiting n) = NextKnown n
Hands q (reset1 n) = NextKnown n
Hands q (reset2 n) = NextKnown n
Hands q (reset3 n) = NextKnown n
Hands q (reset4 n) = NextKnown n
Hands q (reserve j) = j.func ≢ 0
Hands q (func_of off j) = (q.rear ≡ off + job_size) × (j.func ≢ 0)
Hands q (arg_of off j) = (q.rear ≡ off + job_size) × (j.func ≢ 0) × (q.func off ≡ j.func)
Hands q counting = Unit {0}

-- While the queue is reset, it holds no job and counts none.
abbrev pub Settled : Caller → ℕ → Type 0
Settled (reset1 n) k = k ≡ 0
Settled (reset2 n) k = k ≡ 0
Settled (reset3 n) k = k ≡ 0
Settled (reset4 n) k = k ≡ 0
Settled c k = Unit {0}

pub record Ledger (q : Queue) (c : Caller) (w : Worker) (added ran : List Job) : Type 0 where
  pub jobs : List Job
  pub slots : Slots q.func q.arg (first q w) jobs (written q c)
  pub account : added ≡ ran ++ (jobs ++ hand c)
  pub counted : q.job_count ≡ (length jobs + debt w + 2 ^ 32 - uncounted c) % 2 ^ 32
  pub busy : Busy w (length jobs)
  pub passed : Passed q w
  pub hands : Hands q c
  pub settled : Settled c (length jobs + debt w)
  pub small : q.rear < 2 ^ 32
  pub awake : q.job_free ≢ unlock_force

written-le : (q : Queue) (c : Caller) → Hands q c → written q c ≤ q.rear
written-le q (func_of off j) h = omega arith
written-le q (arg_of off j) h = omega arith
written-le q (reset4 n) h = omega arith
written-le q c h = omega arith

debt-le : (w : Worker) → debt w ≤ 1
debt-le (clear_func off) = omega arith
debt-le (clear_arg off) = omega arith
debt-le finish = omega arith
debt-le w = omega arith

pub few :
    {q : Queue} {c : Caller} {w : Worker} {added ran : List Job} (v : Ledger q c w added ran)
    → length v.jobs + debt w < 2 ^ 32
few {q} {c} {w} v = omega (
  arith,
  Slots-length q.func q.arg (first q w) v.jobs (written q c) v.slots,
  written-le q c v.hands,
  debt-le w,
  v.small,
)

pub first-front : (q : Queue) (w : Worker) (n : ℕ) → Busy w n → n ≡ 0 → first q w ≡ q.front
first-front q (got_job off) n b e = absurd (omega arith)
first-front q (calling off) n b e = absurd (omega arith)
first-front q w n b e = refl

pub first-same : (q q' : Queue) (w : Worker) → q'.front ≡ q.front → first q' w ≡ first q w
first-same q q' (got_job off) e = refl
first-same q q' (calling off) e = refl
first-same q q' w e = e

pub Passed-same : (q q' : Queue) (w : Worker) → q'.front ≡ q.front → Passed q w → Passed q' w
Passed-same q q' (got_job off) e p = e ∙ p
Passed-same q q' (calling off) e p = e ∙ p
Passed-same q q' (clear_func off) e p = rw e p
Passed-same q q' (clear_arg off) e p = rw e p
Passed-same q q' w e p = tt

pub Passed-idle : (q : Queue) (w : Worker) (n : ℕ) → Busy w n → n + debt w ≡ 0 → Passed q w
Passed-idle q (got_job off) n b e = absurd (omega arith)
Passed-idle q (calling off) n b e = absurd (omega arith)
Passed-idle q (clear_func off) n b e = absurd (omega arith)
Passed-idle q (clear_arg off) n b e = absurd (omega arith)
Passed-idle q w n b e = tt

pub Busy-more : (w : Worker) (n m : ℕ) → n ≤ m → Busy w n → Busy w m
Busy-more fetch n m le b = omega arith
Busy-more (got_job off) n m le b = omega arith
Busy-more (calling off) n m le b = omega arith
Busy-more stopped n m le b = b
Busy-more w n m le b = tt

pub length-zero : (js : List Job) → length js ≡ 0 → js ≡ []
length-zero [] e = refl
length-zero (j ∷ js) e = absurd (omega arith)
