-- ===== src/Jpool/Bounds.antt =====
-- No step of the caller or of the worker touches a job outside the queue's segment.
use libcando.Base.{ℕ, ◌+◌, ◌%◌, ◌^◌, ◌≤◌, ◌<◌, ◌≡◌, refl, arith, List}
use libcando.Jpool.{Job, Queue, is_full, job_size}
use libcando.Jpool.Threads.{
  adding, returning, Caller, reserve, func_of, arg_of, Call, add, not_full, store_rear, store_front,
  Worker, got_rear, fetch, got_job, calling, clear_func, clear_arg, Work, ready, forced, System,
  Step, calls, works, Reach, start, later, go_on,
}

module _ (size : ℕ) where
  -- The job at this offset lies in the segment.
  abbrev pub InSegment : ℕ → Type 0
  InSegment off = off + job_size ≤ size

  -- The jobs that the caller and the worker are about to touch.
  abbrev pub CallerIn : Queue → Caller → Type 0
  CallerIn q (reserve j) = InSegment q.rear
  CallerIn q (func_of off j) = InSegment off
  CallerIn q (arg_of off j) = InSegment off
  CallerIn q _ = Unit {0}

  abbrev pub WorkerIn : Queue → Worker → Type 0
  WorkerIn q (got_rear r) = (r % job_size ≡ 0) × (r ≤ size)
  WorkerIn q fetch = InSegment q.front
  WorkerIn q (got_job off) = InSegment off
  WorkerIn q (calling off) = InSegment off
  WorkerIn q (clear_func off) = InSegment off
  WorkerIn q (clear_arg off) = InSegment off
  WorkerIn q _ = Unit {0}

  record Aligned (q : Queue) : Type 0 where
    sized : q.size ≡ size
    awake : q.job_free ≡ 0
    front_step : q.front % job_size ≡ 0
    front_in : q.front ≤ size
    rear_step : q.rear % job_size ≡ 0
    rear_in : q.rear ≤ size

  module _ (room : job_size ≤ size) (small : size < 2 ^ 32) where
    Call-Aligned :
        {q q' : Queue} {c c' : Caller} {js : List Job}
        → Call q c q' c' js
        → Aligned q
        → CallerIn q c
        → Aligned q' × CallerIn q' c'
    unfolding is_full
    Call-Aligned (add j f a) g i = (g, tt)
    Call-Aligned (store_rear {n = adding j}) g i = ground arith
    Call-Aligned (store_rear {n = returning}) g i = ground arith
    Call-Aligned (not_full free) g i = ground arith
    Call-Aligned mv g i = ground arith

    Call-WorkerIn :
        {q q' : Queue} {c c' : Caller} {js : List Job} (w : Worker)
        → Call q c q' c' js
        → WorkerIn q w
        → WorkerIn q' w
    Call-WorkerIn fetch store_front i = room
    Call-WorkerIn fetch mv i = i
    Call-WorkerIn w mv i = i

    Work-Aligned :
        {q q' : Queue} {w w' : Worker} {js : List Job}
        → Work q w q' w' js
        → Aligned q
        → WorkerIn q w
        → Aligned q' × WorkerIn q' w'
    Work-Aligned (go_on e) g i = (g, tt)
    Work-Aligned (ready more) g i = ground arith
    Work-Aligned (forced e) g i = absurd (omega arith)
    Work-Aligned mv g i = ground arith

    Work-CallerIn :
        {q q' : Queue} {w w' : Worker} {js : List Job} (c : Caller)
        → Work q w q' w' js
        → CallerIn q c
        → CallerIn q' c
    Work-CallerIn (reserve j) (go_on e) i = i
    Work-CallerIn (reserve j) mv i = i
    Work-CallerIn c mv i = i

    record Inv (s : System) : Type 0 where
      aligned : Aligned s.queue
      caller_in : CallerIn s.queue s.caller
      worker_in : WorkerIn s.queue s.worker

    Step-Inv : {s t : System} → Step s t → Inv s → Inv t
    Step-Inv {s} (calls mv) v =
        let (aligned, caller_in) = Call-Aligned mv v.aligned v.caller_in in
        record {
          aligned = aligned;
          caller_in = caller_in;
          worker_in = Call-WorkerIn s.worker mv v.worker_in;
        }
    Step-Inv {s} (works mv) v =
        let (aligned, worker_in) = Work-Aligned mv v.aligned v.worker_in in
        record {
          aligned = aligned;
          caller_in = Work-CallerIn s.caller mv v.caller_in;
          worker_in = worker_in;
        }

    Reach-Inv : {s : System} → Reach size s → Inv s
    Reach-Inv start = record {
      aligned = record {
        sized = refl;
        awake = refl;
        front_step = refl;
        front_in = omega arith;
        rear_step = refl;
        rear_in = omega arith;
      };
      caller_in = tt;
      worker_in = tt;
    }
    Reach-Inv (later r st) = Step-Inv st (Reach-Inv r)

    -- On a queue that has room for a job, in every interleaving of a caller that adds jobs and
    -- waits with the worker, also across the resets: the job that the caller is about to write,
    -- the one that the worker is about to take, and those that either has in hand lie in the
    -- segment.
    pub jobs_in_segment :
        {s : System} → Reach size s → CallerIn s.queue s.caller × WorkerIn s.queue s.worker
    jobs_in_segment r = let v = Reach-Inv r in (v.caller_in, v.worker_in)
