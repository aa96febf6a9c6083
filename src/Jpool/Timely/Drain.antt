-- ===== src/Jpool/Timely/Drain.antt =====
-- The loop of `p_queue_wait` ends, if the worker runs and takes its slots in time.
use mathlib.Core.List.{append-nil}
use mathlib.Core.Path.{subst}
use native.Mathlib.Decide.{dec_lt, ℕ_discrete}
use libcando.Base.{
  ℕ, zero, suc, ◌+◌, ◌*◌, ◌-◌, ◌^◌, ◌≤◌, ◌<◌, ◌≡◌, refl, sym, ◌≢◌, arith, List, [], ◌++◌, length,
  ltb, if◌then◌else◌,
}
use libcando.Jpool.{Job, Queue, job_size}
use libcando.Jpool.Threads.{
  Next, waiting, reset1, idle, Call, Worker, loop, poll, got_rear, unready, fetch, got_job, calling,
  clear_func, clear_arg, finish, stopped, Work, go_on, load_rear, ready, not_ready, again, get_job,
  some_job, run, null_func, null_arg, uncount, System, init,
}
use libcando.Jpool.Fifo.Slots.{Slots-length}
use libcando.Jpool.Timely.{OnTime, Timely, begin, called, worked, Timely-append}
use libcando.Jpool.Timely.Ledger.{first, next_hand, Ledger}
use libcando.Jpool.Timely.Works.{head}
use libcando.Jpool.Timely.Complete.{timely-Ledger, reset_run}

-- The steps that the worker has left, for the jobs in the queue and for its round
abbrev left : Queue → Worker → ℕ
left q (clear_func off) = 21
left q (clear_arg off) = 20
left q finish = 19
left q loop = 18
left q (got_rear r) = if ltb q.front r then 9 else 15
left q unready = 14
left q poll = 13
left q fetch = 8
left q (got_job off) = 7
left q (calling off) = 6
left q stopped = 0

abbrev measure : Queue → Worker → ℕ
measure q w = q.rear - first q w + left q w

record NextStep (n : Next) (q : Queue) (w : Worker) : Type 0 where
  queue : Queue
  worker : Worker
  jobs : List Job
  step : Work q w queue worker jobs
  on_time : OnTime q (waiting n) w
  closer : measure queue worker < measure q w

steps :
    {n : Next} {q q' : Queue} {w w' : Worker} {js : List Job}
    → Work q w q' w' js
    → OnTime q (waiting n) w
    → measure q' w' < measure q w
    → NextStep n q w
steps {q'} {w'} {js} mv on lt = record {
  queue = q';
  worker = w';
  jobs = js;
  step = mv;
  on_time = on;
  closer = lt;
}

-- The slots from that of the first job up to `rear`
span :
    {n : Next} {q : Queue} {w : Worker} {added ran : List Job}
    (v : Ledger q (waiting n) w added ran)
    → first q w + job_size * length v.jobs ≡ q.rear
span {q} {w} v = Slots-length q.func q.arg (first q w) v.jobs q.rear v.slots

-- While jobs are counted, the worker has a step that brings it closer to the end.
worker_step :
    (n : Next) (q : Queue) (w : Worker) {added ran : List Job}
    → Ledger q (waiting n) w added ran
    → q.job_count ≢ 0
    → NextStep n q w
worker_step n q loop v ne = steps (go_on v.awake) tt (omega arith)
worker_step n q poll v ne =
    let some : q.front < q.rear = omega (arith, v.counted, span v, ne) in
    steps load_rear tt (ground (arith, some))
worker_step n q (got_rear r) v ne =
    let some : q.front < q.rear = omega (arith, v.counted, span v, ne) in
    elim (dec_lt q.front r) [
      | yes h ↦ steps (ready h) (λ k. some) (ground (arith, h))
      | no h ↦ steps (not_ready (omega arith)) (λ k. some) (ground (arith, h))
    ]
worker_step n q unready v ne = steps (again v.awake) tt (omega arith)
worker_step n q fetch v ne = steps get_job tt (omega arith)
worker_step n q (got_job off) v ne =
    let h = head q off q.rear v.jobs v.slots v.busy in steps (some_job h.known) tt (omega arith)
worker_step n q (calling off) v ne = steps run tt (omega (arith, v.passed, span v, v.busy))
worker_step n q (clear_func off) v ne = steps null_func tt (omega arith)
worker_step n q (clear_arg off) v ne = steps null_arg tt (omega arith)
worker_step n q finish v ne = steps uncount tt (omega arith)
worker_step n q stopped v ne = absurd v.busy

-- The caller leaves its loop.
leave :
    (n : Next) (s : System)
    → s.caller ≡ waiting n
    → s.queue.job_count ≡ 0
    → Timely s (record s { caller = reset1 n; added = s.added ++ [] })
leave n s e z =
    let mv : Call s.queue s.caller s.queue (reset1 n) [] =
      subst (λ c. Call s.queue c s.queue (reset1 n) []) (sym e) (idle z) in
    called begin mv

module _ {size : ℕ} (room : job_size ≤ size) (small : size < 2 ^ 32) where
  drain :
      (fuel : ℕ) (n : Next) (s : System)
      → Timely (init size) s
      → s.caller ≡ waiting n
      → measure s.queue s.worker < fuel
      → (t : System) × Timely s t × (t.caller ≡ reset1 n) × (t.added ≡ s.added)
  drain zero n s t e lt = absurd (omega arith)
  drain (suc fuel) n s t e lt = elim (ℕ_discrete s.queue.job_count 0) [
    | yes z ↦ (_, leave n s e z, refl, append-nil s.added)
    | no ne ↦
        let v =
          subst (λ c. Ledger s.queue c s.worker s.added s.ran) e (timely-Ledger room small t) in
        let next = worker_step n s.queue s.worker v ne in
        let on = subst (λ c. OnTime s.queue c s.worker) (sym e) next.on_time in
        let (u, r, c, a) = drain fuel n _ (worked t on next.step) e (omega (arith, next.closer)) in
        (u, Timely-append (worked begin on next.step) r, c, a)
  ]

  -- On a queue that has room for a job, after any interleaving in which the worker takes its slots
  -- in time: the loop of `p_queue_wait` can be left by further such steps that add no job, and then
  -- every job handed over was run, in order, but the one that waits for the room.
  pub wait_ends :
      (n : Next) (s : System)
      → Timely (init size) s
      → s.caller ≡ waiting n
      → (t : System) × Timely s t
        × (t.caller ≡ reset1 n)
        × (t.added ≡ s.added)
        × (t.added ≡ t.ran ++ next_hand n)
  wait_ends n s t e =
      let (u, r, c, a) = drain (suc (measure s.queue s.worker)) n s t e (omega arith) in
      (u, r, c, a, reset_run n (timely-Ledger room small (Timely-append t r)) c)
