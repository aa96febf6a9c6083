-- ===== src/Jpool/Timely/Works.antt =====
-- A step of the worker that takes its slots in time keeps the account of the jobs.
use mathlib.Core.List.{append-nil, append_assoc}
use mathlib.Core.Path.{subst}
use libcando.Base.{
  ℕ, ◌+◌, ◌-◌, ◌%◌, ◌^◌, ◌≤◌, ◌<◌, ◌≡◌, refl, sym, ap, ◌∙◌, ◌≢◌, arith, List, [], ◌∷◌, ◌++◌, length,
  add32, sub32,
}
use libcando.Jpool.{Job, Queue, unlock_force, job_size, update, job_at}
use libcando.Jpool.Threads.{
  Caller, func_of, arg_of, counting, reset1, reset2, reset3, reset4, Worker, loop, poll, got_rear,
  unready, fetch, got_job, calling, clear_func, clear_arg, finish, Work, go_on, stop, load_rear,
  ready, not_ready, forced, again, get_job, null_job, some_job, run, null_func, null_arg, uncount,
}
use libcando.Jpool.Bounds.{WorkerIn}
use libcando.Jpool.Fifo.{Slots}
use libcando.Jpool.Fifo.Slots.{Slots-frame, Slots-length}
use libcando.Jpool.Timely.{written, OnTime}
use libcando.Jpool.Timely.Ledger.{
  hand, uncounted, debt, first, Hands, Settled, Busy, Passed, Ledger,
}

written-same : (q q' : Queue) (c : Caller) → q'.rear ≡ q.rear → written q' c ≡ written q c
written-same q q' (func_of off j) e = refl
written-same q q' (arg_of off j) e = refl
written-same q q' (reset4 n) e = refl
written-same q q' c e = e

Hands-same :
    (q q' : Queue) (c : Caller)
    → q'.rear ≡ q.rear
    → ((off : ℕ) → written q c ≤ off → q'.func off ≡ q.func off)
    → Hands q c
    → Hands q' c
Hands-same q q' (func_of off j) e f h = (e ∙ h.0, h.1)
Hands-same q q' (arg_of off j) e f h = (e ∙ h.0, h.1, f off (omega arith) ∙ h.2)
Hands-same q q' c e f h = h

Settled-less : (c : Caller) (n m : ℕ) → m ≤ n → Settled c n → Settled c m
Settled-less (reset1 a) n m le s = omega arith
Settled-less (reset2 a) n m le s = omega arith
Settled-less (reset3 a) n m le s = omega arith
Settled-less (reset4 a) n m le s = omega arith
Settled-less c n m le s = tt

uncounted-le : (c : Caller) → uncounted c ≤ 1
uncounted-le counting = omega arith
uncounted-le c = omega arith

-- A step that leaves `rear` and what the caller writes alone
kept :
    (q q' : Queue) (c : Caller) (w' : Worker) {added ran : List Job}
    → q'.rear ≡ q.rear
    → (jobs : List Job) → Slots q'.func q'.arg (first q' w') jobs (written q c)
    → added ≡ ran ++ (jobs ++ hand c)
    → q'.job_count ≡ (length jobs + debt w' + 2 ^ 32 - uncounted c) % 2 ^ 32
    → Busy w' (length jobs)
    → Passed q' w'
    → ((off : ℕ) → written q c ≤ off → q'.func off ≡ q.func off)
    → Hands q c
    → Settled c (length jobs + debt w')
    → q.rear < 2 ^ 32
    → q'.job_free ≢ unlock_force
    → Ledger q' c w' added ran
kept q q' c w' e jobs slots account counted worker passed same hands settled small awake = record {
  jobs = jobs;
  slots = rw (written-same q q' c e) slots;
  account = account;
  counted = counted;
  busy = worker;
  passed = passed;
  hands = Hands-same q q' c e same hands;
  settled = settled;
  small = rw e small;
  awake = awake;
}

-- The slot that the worker has taken
pub record Head (q : Queue) (off stop : ℕ) (jobs : List Job) : Type 0 where
  pub rest : List Job
  pub job : jobs ≡ job_at q off ∷ rest
  pub known : q.func off ≢ 0
  pub slots : Slots q.func q.arg (off + job_size) rest stop

pub head :
    (q : Queue) (off stop : ℕ) (jobs : List Job)
    → Slots q.func q.arg off jobs stop
    → 0 < length jobs
    → Head q off stop jobs
head q off end [] s lt = absurd (omega arith)
head q off end (j ∷ js) (f, a, ne, s) lt = record {
  rest = js;
  job = ground arith;
  known = rw f ne;
  slots = s;
}

module _ (size : ℕ) (small : size < 2 ^ 32) where
  pub Work-Ledger :
      {q q' : Queue} {w w' : Worker} {js : List Job} (c : Caller) (added ran : List Job)
      → Work q w q' w' js
      → OnTime q c w
      → WorkerIn size q w
      → Ledger q c w added ran
      → Ledger q' c w' added (ran ++ js)
  Work-Ledger {q} c added ran (go_on e) on i v =
      kept q q c poll refl v.jobs v.slots (rw (append-nil ran) v.account) v.counted tt tt
        (λ off h. refl) v.hands v.settled v.small v.awake
  Work-Ledger {q} c added ran (stop e) on i v = absurd (v.awake e)
  Work-Ledger {q} c added ran load_rear on i v =
      kept q q c (got_rear q.rear) refl v.jobs v.slots (rw (append-nil ran) v.account) v.counted tt
        tt (λ off h. refl) v.hands v.settled v.small v.awake
  Work-Ledger {q} c added ran (ready more) on i v =
      kept q q c fetch refl v.jobs v.slots (rw (append-nil ran) v.account) v.counted
        (omega (arith, on more, Slots-length q.func q.arg q.front v.jobs (written q c) v.slots)) tt
        (λ off h. refl) v.hands v.settled v.small v.awake
  Work-Ledger {q} c added ran (not_ready le) on i v =
      kept q q c unready refl v.jobs v.slots (rw (append-nil ran) v.account) v.counted tt tt
        (λ off h. refl) v.hands v.settled v.small v.awake
  Work-Ledger {q} c added ran (forced e) on i v = absurd (v.awake e)
  Work-Ledger {q} c added ran (again e) on i v =
      kept q q c poll refl v.jobs v.slots (rw (append-nil ran) v.account) v.counted tt tt
        (λ off h. refl) v.hands v.settled v.small v.awake
  Work-Ledger {q} c added ran get_job on i v =
      kept q (record q { front = add32 q.front job_size }) c (got_job q.front) refl v.jobs v.slots
        (rw (append-nil ran) v.account) v.counted v.busy (omega arith) (λ off h. refl) v.hands
        v.settled v.small v.awake
  Work-Ledger {q} c added ran (null_job {off} e) on i v =
      absurd ((head q off (written q c) v.jobs v.slots v.busy).known e)
  Work-Ledger {q} c added ran (some_job {off} ne) on i v =
      kept q q c (calling off) refl v.jobs v.slots (rw (append-nil ran) v.account) v.counted v.busy
        v.passed (λ o h. refl) v.hands v.settled v.small v.awake
  Work-Ledger {q} c added ran (run {off}) on i v =
      let h = head q off (written q c) v.jobs v.slots v.busy in
      let fewer : length v.jobs ≡ length h.rest + 1 = omega (arith, ap length h.job) in
      kept q q c (clear_func off) refl h.rest
        (subst (λ o. Slots q.func q.arg o h.rest (written q c)) (sym v.passed) h.slots)
        (v.account
          ∙ ap (λ l. ran ++ (l ++ hand c)) h.job
          ∙ sym (append_assoc ran (job_at q off ∷ []) (h.rest ++ hand c)))
        (omega (arith, v.counted, fewer)) tt (omega (arith, v.passed)) (λ o k. refl) v.hands
        (Settled-less c _ _ (omega (arith, fewer)) v.settled) v.small v.awake
  Work-Ledger {q} c added ran (null_func {off}) on i v =
      let stop = Slots-length q.func q.arg q.front v.jobs (written q c) v.slots in
      let before = v.passed in
      kept q (record q { func = update q.func off 0 }) c (clear_arg off) refl v.jobs
        (Slots-frame q.func q.arg _ q.arg q.front v.jobs (written q c)
          (λ a lo hi. (ground (arith, before), refl)) v.slots)
        (rw (append-nil ran) v.account) v.counted tt v.passed (λ o k. ground (arith, before, stop))
        v.hands v.settled v.small v.awake
  Work-Ledger {q} c added ran (null_arg {off}) on i v =
      let before = v.passed in
      kept q (record q { arg = update q.arg off 0 }) c finish refl v.jobs
        (Slots-frame q.func q.arg q.func _ q.front v.jobs (written q c)
          (λ a lo hi. (refl, ground (arith, before))) v.slots)
        (rw (append-nil ran) v.account) v.counted tt tt (λ o k. refl) v.hands v.settled v.small
        v.awake
  Work-Ledger {q} c added ran uncount on i v =
      kept q (record q { job_count = sub32 q.job_count 1 }) c loop refl v.jobs v.slots
        (rw (append-nil ran) v.account) (omega (arith, v.counted, uncounted-le c)) tt tt
        (λ o k. refl) v.hands (Settled-less c _ _ (omega arith) v.settled) v.small v.awake
