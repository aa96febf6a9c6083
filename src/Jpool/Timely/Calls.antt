-- ===== src/Jpool/Timely/Calls.antt =====
-- A step of the caller keeps the account of the jobs.
use mathlib.Core.List.{append-nil, append_assoc}
use libcando.Base.{
  ℕ, ◌+◌, ◌-◌, ◌%◌, ◌^◌, ◌<◌, ◌≡◌, refl, ap, ◌∙◌, ◌≢◌, arith, List, [], ◌∷◌, ◌++◌, length,
  length-append, add32,
}
use libcando.Jpool.{Job, Queue, unlock_force, job_size, update}
use libcando.Jpool.Threads.{
  adding, returning, Caller, out, waiting, reset1, reset2, reset3, reset4, reserve, func_of, arg_of,
  counting, Call, add, wait, full, not_full, busy, idle, store_job_free, store_job_count,
  store_front, store_rear, take_slot, store_func, store_arg, count, Worker,
}
use libcando.Jpool.Bounds.{CallerIn}
use libcando.Jpool.Fifo.{Slots}
use libcando.Jpool.Fifo.Slots.{Slots-frame, Slots-append, Slots-length}
use libcando.Jpool.Timely.{written}
use libcando.Jpool.Timely.Ledger.{
  hand, uncounted, debt, first, Hands, Settled, Busy, Passed, Ledger, few, first-front, first-same,
  Passed-same, Passed-idle, Busy-more, length-zero,
}

-- A step that leaves the queue alone
quiet :
    {q : Queue} {c : Caller} {w : Worker} {added ran : List Job} (c' : Caller)
    → (v : Ledger q c w added ran) → written q c' ≡ written q c
    → hand c' ≡ hand c
    → uncounted c' ≡ uncounted c
    → Hands q c'
    → Settled c' (length v.jobs + debt w)
    → Ledger q c' w (added ++ []) ran
quiet {q} {c} {w} {added} {ran} c' v e h u k t = record {
  jobs = v.jobs;
  slots = rw e v.slots;
  account = rw (append-nil added, h) v.account;
  counted = rw u v.counted;
  busy = v.busy;
  passed = v.passed;
  hands = k;
  settled = t;
  small = v.small;
  awake = v.awake;
}

-- A store of `p_queue_reset` to a queue without jobs
cleared :
    {q : Queue} {c : Caller} {w : Worker} {added ran : List Job} (q' : Queue) (c' : Caller)
    → (v : Ledger q c w added ran) → length v.jobs + debt w ≡ 0
    → q'.front ≡ written q' c'
    → q'.job_count ≡ 0
    → uncounted c' ≡ 0
    → hand c' ≡ hand c
    → Hands q' c'
    → Settled c' 0
    → q'.rear < 2 ^ 32
    → q'.job_free ≢ unlock_force
    → Ledger q' c' w (added ++ []) ran
cleared {q} {c} {w} {added} {ran} q' c' v none e n u h k t small awake =
    let no_jobs = length-zero v.jobs (omega (arith, none)) in
    let no_debt : debt w ≡ 0 = omega (arith, none) in
    let idle : Busy w 0 = Busy-more w (length v.jobs) 0 (omega (arith, none)) v.busy in
    record {
      jobs = [];
      slots = first-front q' w 0 idle refl ∙ e;
      account = rw (append-nil added, h) (v.account ∙ ap (λ l. ran ++ (l ++ hand c)) no_jobs);
      counted = rw (no_debt, u) n;
      busy = idle;
      passed = Passed-idle q' w 0 idle (omega (arith, no_debt));
      hands = k;
      settled = rw no_debt t;
      small = small;
      awake = awake;
    }

front_written :
    {q : Queue} {c : Caller} {w : Worker} {added ran : List Job} (v : Ledger q c w added ran)
    → length v.jobs + debt w ≡ 0
    → q.front ≡ written q c
front_written {q} {c} {w} v none = omega (
  arith,
  first-front q w (length v.jobs) v.busy (omega (arith, none)),
  Slots-length q.func q.arg (first q w) v.jobs (written q c) v.slots,
  none,
)

count_zero :
    {q : Queue} {c : Caller} {w : Worker} {added ran : List Job} (v : Ledger q c w added ran)
    → length v.jobs + debt w ≡ 0
    → uncounted c ≡ 0
    → q.job_count ≡ 0
count_zero v none u = omega (arith, v.counted, none, u)

-- A step that leaves `front` alone
kept :
    (q q' : Queue) (w : Worker) {added ran : List Job} (c' : Caller)
    → q'.front ≡ q.front
    → (jobs : List Job) → Slots q'.func q'.arg (first q w) jobs (written q' c')
    → added ≡ ran ++ (jobs ++ hand c')
    → q'.job_count ≡ (length jobs + debt w + 2 ^ 32 - uncounted c') % 2 ^ 32
    → Busy w (length jobs)
    → Passed q w
    → Hands q' c'
    → Settled c' (length jobs + debt w)
    → q'.rear < 2 ^ 32
    → q'.job_free ≢ unlock_force
    → Ledger q' c' w added ran
kept q q' w c' e jobs slots account counted worker passed hands settled small awake = record {
  jobs = jobs;
  slots = rw (first-same q q' w e) slots;
  account = account;
  counted = counted;
  busy = worker;
  passed = Passed-same q q' w e passed;
  hands = hands;
  settled = settled;
  small = small;
  awake = awake;
}

taken_up :
    (added ran jobs : List Job) (j : Job)
    → added ≡ ran ++ (jobs ++ [])
    → added ++ (j ∷ []) ≡ ran ++ (jobs ++ (j ∷ []))
taken_up added ran jobs j e = rw e (simp (append-nil, append_assoc))

module _ (size : ℕ) (small : size < 2 ^ 32) where
  pub Call-Ledger :
      {q q' : Queue} {c c' : Caller} {js : List Job} (w : Worker) (added ran : List Job)
      → Call q c q' c' js
      → CallerIn size q c
      → Ledger q c w added ran
      → Ledger q' c' w (added ++ js) ran
  Call-Ledger w added ran (add j f a) i v = record {
    jobs = v.jobs;
    slots = v.slots;
    account = taken_up added ran v.jobs j v.account;
    counted = v.counted;
    busy = v.busy;
    passed = v.passed;
    hands = f;
    settled = tt;
    small = v.small;
    awake = v.awake;
  }
  Call-Ledger w added ran wait i v = quiet (waiting returning) v refl refl refl tt tt
  Call-Ledger w added ran (full {j} e) i v = quiet (waiting (adding j)) v refl refl refl v.hands tt
  Call-Ledger w added ran (not_full {j} e) i v = quiet (reserve j) v refl refl refl v.hands tt
  Call-Ledger w added ran (busy {n} e) i v = quiet (waiting n) v refl refl refl v.hands tt
  Call-Ledger {q} w added ran (idle {n} e) i v =
      quiet (reset1 n) v refl refl refl v.hands (omega (arith, v.counted, few v, e))
  Call-Ledger {q} w added ran (store_job_free {n}) i v =
      cleared (record q { job_free = 0 }) (reset2 n) v v.settled (front_written v v.settled)
        (count_zero v v.settled refl) refl refl v.hands refl v.small (omega arith)
  Call-Ledger {q} w added ran (store_job_count {n}) i v =
      cleared (record q { job_count = 0 }) (reset3 n) v v.settled (front_written v v.settled) refl
        refl refl v.hands refl v.small v.awake
  Call-Ledger {q} w added ran (store_front {n}) i v =
      cleared (record q { front = 0 }) (reset4 n) v v.settled refl (count_zero v v.settled refl)
        refl refl v.hands refl v.small v.awake
  Call-Ledger {q} w added ran (store_rear {n = adding j}) i v =
      cleared (record q { rear = 0 }) (reserve j) v v.settled (front_written v v.settled)
        (count_zero v v.settled refl) refl refl v.hands tt (omega arith) v.awake
  Call-Ledger {q} w added ran (store_rear {n = returning}) i v =
      cleared (record q { rear = 0 }) out v v.settled (front_written v v.settled)
        (count_zero v v.settled refl) refl refl tt tt (omega arith) v.awake
  Call-Ledger {q} w added ran (take_slot {j}) i v =
      kept q (record q { rear = add32 q.rear job_size }) w (func_of q.rear j) refl v.jobs v.slots
        (rw (append-nil added) v.account) v.counted v.busy v.passed (omega arith, v.hands) tt
        (omega arith) v.awake
  Call-Ledger {q} w added ran (store_func {off} {j}) i v =
      let (rear, known) = v.hands in
      kept q (record q { func = update q.func off j.func }) w (arg_of off j) refl v.jobs
        (Slots-frame q.func q.arg _ q.arg (first q w) v.jobs off (λ a lo hi. (ground arith, refl))
          v.slots)
        (rw (append-nil added) v.account) v.counted v.busy v.passed (rear, known, ground arith) tt
        v.small v.awake
  Call-Ledger {q} w added ran (store_arg {off} {j}) i v =
      let (rear, known, func) = v.hands in
      let framed =
        Slots-frame q.func q.arg q.func (update q.arg off j.arg) (first q w) v.jobs off
          (λ a lo hi. (refl, ground arith)) v.slots in
      let more = length-append v.jobs (j ∷ []) in
      kept q (record q { arg = update q.arg off j.arg }) w counting refl (v.jobs ++ (j ∷ []))
        (rw rear (Slots-append _ _ (first q w) v.jobs j off framed func (ground arith) known))
        (rw (append-nil added, append-nil (v.jobs ++ (j ∷ []))) v.account)
        (omega (arith, v.counted, more))
        (Busy-more w (length v.jobs) _ (omega (arith, more)) v.busy) v.passed tt tt v.small v.awake
  Call-Ledger {q} w added ran count i v =
      kept q (record q { job_count = add32 q.job_count 1 }) w out refl v.jobs v.slots
        (rw (append-nil added) v.account) (omega (arith, v.counted)) v.busy v.passed tt tt v.small
        v.awake
