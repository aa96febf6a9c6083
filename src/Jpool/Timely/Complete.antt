-- ===== src/Jpool/Timely/Complete.antt =====
-- If the worker takes its slots in time, no job is lost, run twice or out of its turn.
use mathlib.Core.List.{append-nil}
use mathlib.Core.Path.{subst}
use libcando.Base.{ℕ, ◌+◌, ◌^◌, ◌≤◌, ◌<◌, ◌≡◌, refl, ap, ◌∙◌, arith, List, [], ◌∷◌, ◌++◌, length}
use libcando.Jpool.{Job, Queue, job_size}
use libcando.Jpool.Threads.{Next, adding, returning, Caller, out, reset1, Worker, System, init}
use libcando.Jpool.Bounds.{jobs_in_segment}
use libcando.Jpool.Timely.{Timely, begin, called, worked, Timely-Reach}
use libcando.Jpool.Timely.Ledger.{
  hand, next_hand, uncounted, debt, Settled, Ledger, few, length-zero,
}
use libcando.Jpool.Timely.Calls.{Call-Ledger}
use libcando.Jpool.Timely.Works.{Work-Ledger}

-- Nothing is in the queue.
all_run :
    {q : Queue} {c : Caller} {w : Worker} {added ran : List Job} (v : Ledger q c w added ran)
    → length v.jobs ≡ 0
    → added ≡ ran ++ hand c
all_run {c} {ran} v e = v.account ∙ ap (λ l. ran ++ (l ++ hand c)) (length-zero v.jobs e)

pub reset_run :
    {q : Queue} {c : Caller} {w : Worker} {added ran : List Job} (n : Next)
    → Ledger q c w added ran
    → c ≡ reset1 n
    → added ≡ ran ++ next_hand n
reset_run {c} {w} {ran} n v e =
    let none = subst (λ a. Settled a (length v.jobs + debt w)) e v.settled in
    all_run v (omega (arith, none)) ∙ ap (λ a. ran ++ hand a) e

idle_run :
    {q : Queue} {c : Caller} {w : Worker} {added ran : List Job}
    → Ledger q c w added ran
    → c ≡ out
    → q.job_count ≡ 0
    → added ≡ ran
idle_run {c} {ran} v e z =
    let u : uncounted c ≡ 0 = ap uncounted e in
    all_run v (omega (arith, v.counted, few v, u, z)) ∙ ap (λ a. ran ++ hand a) e ∙ append-nil ran

module _ {size : ℕ} (room : job_size ≤ size) (small : size < 2 ^ 32) where
  pub timely-Ledger :
      {s : System} → Timely (init size) s → Ledger s.queue s.caller s.worker s.added s.ran
  timely-Ledger begin = record {
    jobs = [];
    slots = refl;
    account = refl;
    counted = refl;
    busy = tt;
    passed = tt;
    hands = tt;
    settled = tt;
    small = omega arith;
    awake = omega arith;
  }
  timely-Ledger (called {s} t mv) =
      Call-Ledger size small s.worker s.added s.ran mv
        (jobs_in_segment size room small (Timely-Reach t)).0 (timely-Ledger t)
  timely-Ledger (worked {s} t on mv) =
      Work-Ledger size small s.caller s.added s.ran mv on
        (jobs_in_segment size room small (Timely-Reach t)).1 (timely-Ledger t)

  -- On a queue that has room for a job, in every interleaving in which the worker takes no slot
  -- before its job is written in full, and none between the stores of a reset that move the ends of
  -- the queue: the jobs run are the first of those handed over, in their order; when `p_queue_wait`
  -- leaves its loop, all were run but the one that waits for the room; and so they were when the
  -- caller is outside and no job is counted.
  pub timely_complete :
      {s : System}
      → Timely (init size) s
      → ((rest : List Job) × (s.added ≡ s.ran ++ rest))
        × (s.caller ≡ reset1 returning → s.added ≡ s.ran)
        × ((j : Job) → s.caller ≡ reset1 (adding j) → s.added ≡ s.ran ++ (j ∷ []))
        × (s.caller ≡ out → s.queue.job_count ≡ 0 → s.added ≡ s.ran)
  timely_complete {s} t =
      let v = timely-Ledger t in
      (
        (v.jobs ++ hand s.caller, v.account),
        λ e. reset_run returning v e ∙ append-nil s.ran,
        λ j e. reset_run (adding j) v e,
        idle_run v,
      )
