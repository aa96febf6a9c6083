-- ===== src/Jpool/Fifo/Order.antt =====
-- Taking turns, every job runs once, in the order in which the jobs were added.
use libcando.Base.{
  ℕ, zero, suc, ◌+◌, ◌≤◌, ◌≡◌, refl, ◌≢◌, inl, inr, arith, some, List, [], ◌∷◌, ◌++◌, length,
  length-append, true, false, ◌==◌, Bool-cases, ◌∙◌, add32,
}
use mathlib.Core.List.{append-nil, append_assoc}
use libcando.Jpool.{Job, Queue, is_full, can_get_job, reset, job_size, update}
use libcando.Jpool.Fifo.Slots.{Slots-end, Slots-frame, Slots-append}
use libcando.Jpool.Fifo.{store_job, round, drain, wait, add_job, submit, Holds}

store_job-Holds :
    (q : Queue) (js : List Job) (j : Job)
    → Holds q js
    → j.func ≢ 0
    → q.rear + job_size ≤ q.size
    → Holds (store_job q j) (js ++ (j ∷ []))
unfolding store_job
store_job-Holds q js j h ne space =
    let stop = Slots-end q.func q.arg q.front js q.rear h.slots in
    let next : add32 q.rear job_size ≡ q.rear + job_size = omega arith in
    let framed =
      Slots-frame q.func q.arg (update q.func q.rear j.func) (update q.arg q.rear j.arg) q.front js
        q.rear (λ i lo hi. (ground arith, ground arith)) h.slots in
    record {
      room = h.room;
      small = h.small;
      slots =
          rw next (Slots-append _ _ q.front js j q.rear framed (ground arith) (ground arith) ne);
      counted = omega (arith, h.counted, length-append js (j ∷ []));
      fits = omega arith;
    }

round-Holds :
    (q : Queue) (j : Job) (js : List Job)
    → Holds q (j ∷ js)
    → ((round q).1 ≡ j ∷ []) × Holds (round q).0 js
unfolding round
round-Holds q j js h =
    let (f, a, ne, rest) = h.slots in
    let some_func : (q.func q.front == 0) ≡ false = ground arith in
    let stop = Slots-end q.func q.arg (q.front + job_size) js q.rear rest in
    let next : add32 q.front job_size ≡ q.front + job_size = omega arith in
    rw some_func (
      ground arith,
      record {
        room = h.room;
        small = h.small;
        slots = rw next (
            Slots-frame q.func q.arg _ _ (q.front + job_size) js q.rear
              (λ i lo hi. (ground arith, ground arith)) rest);
        counted = omega (arith, h.counted);
        fits = h.fits;
      },
    )

size-round : (q : Queue) → (round q).0.size ≡ q.size
unfolding round
size-round q = ground arith

size-store_job : (q : Queue) (j : Job) → (store_job q j).size ≡ q.size
unfolding store_job
size-store_job q j = refl

drain-all :
    (rounds : ℕ) (q : Queue) (js : List Job)
    → Holds q js
    → length js ≤ rounds
    → (q' : Queue) × (drain rounds q ≡ some (q', js)) × Holds q' [] × (q'.size ≡ q.size)
unfolding drain
drain-all zero q [] h le =
    let empty : (q.job_count == 0) ≡ true = ground (arith, h.counted) in (q, rw empty, h, refl)
drain-all zero q (j ∷ js) h le = absurd (omega arith)
drain-all (suc rounds) q [] h le =
    let empty : (q.job_count == 0) ≡ true = ground (arith, h.counted) in
    (q, rw (empty, drain), h, refl)
drain-all (suc rounds) q (j ∷ js) h le =
    let busy : (q.job_count == 0) ≡ false = ground (arith, h.counted) in
    let stop = Slots-end q.func q.arg q.front (j ∷ js) q.rear h.slots in
    let ready : can_get_job q ≡ true = ground arith in
    let (ran, h1) = round-Holds q j js h in
    let (q', out, h2, size) = drain-all rounds (round q).0 js h1 (omega arith) in
    (q', rw (busy, ready, ran, out, drain), h2, size ∙ size-round q)

pub wait-all :
    (rounds : ℕ) (q : Queue) (js : List Job)
    → Holds q js
    → length js ≤ rounds
    → (q' : Queue) × (wait rounds q ≡ some (q', js))
      × Holds q' []
      × (q'.size ≡ q.size)
      × (q'.rear ≡ 0)
unfolding wait
wait-all rounds q js h le =
    let (q', out, h', size) = drain-all rounds q js h le in
    (
      reset q',
      rw out,
      record { room = h'.room; small = h'.small; slots = refl; counted = refl; fits = omega arith },
      size,
      refl,
    )

-- What a call of `udo_jpool_add_job` leaves, and runs, of a queue that held `js`
pub record Added (rounds : ℕ) (q : Queue) (js : List Job) (j : Job) : Type 0 where
  pub next : Queue
  pub ran : List Job
  pub left : List Job
  pub out : add_job rounds q j ≡ some (next, ran)
  pub holds : Holds next left
  pub order : ran ++ left ≡ js ++ (j ∷ [])
  pub size : next.size ≡ q.size

pub length-Holds : (q : Queue) (js : List Job) → Holds q js → length js ≤ q.size
length-Holds q js h = omega (arith, Slots-end q.func q.arg q.front js q.rear h.slots, h.fits)

pub add_job-Added :
    (rounds : ℕ) (q : Queue) (js : List Job) (j : Job)
    → Holds q js
    → j.func ≢ 0
    → q.size ≤ rounds
    → Added rounds q js j
unfolding add_job is_full
add_job-Added rounds q js j h ne fuel = elim (Bool-cases (is_full q)) [
  | inl full ↦
      let (q', out, h', size, empty) =
        wait-all rounds q js h (omega (arith, length-Holds q js h)) in
      record {
        next = store_job q' j;
        ran = js;
        left = j ∷ [];
        out = rw (full, out);
        holds = store_job-Holds q' [] j h' ne (omega (arith, h'.room));
        order = refl;
        size = size-store_job q' j ∙ size;
      }
  | inr free ↦ record {
    next = store_job q j;
    ran = [];
    left = js ++ (j ∷ []);
    out = rw free;
    holds = store_job-Holds q js j h ne (ground (arith, h.small, h.room, h.fits));
    order = refl;
    size = size-store_job q j;
  }
]

regroup :
    (ran left js : List Job) (j : Job) (new : List Job)
    → ran ++ left ≡ js ++ (j ∷ [])
    → ran ++ (left ++ new) ≡ js ++ (j ∷ new)
regroup ran left js j new order =
    rw (← append_assoc ran left new, order, append_assoc js (j ∷ []) new)

-- Every job has a function.
abbrev pub AllCallable : List Job → Type 0
AllCallable [] = Unit {0}
AllCallable (j ∷ js) = (j.func ≢ 0) × AllCallable js

-- On a queue that has room for a job and holds the jobs `js`: adding the jobs `new` and waiting
-- ends, if the worker may run `q.size` rounds in each wait. Every job, the old and the new, runs
-- exactly once, in the order in which it was added, however often the queue fills up on the way;
-- the queue is then empty.
pub submit-all :
    (rounds : ℕ) (q : Queue) (js new : List Job)
    → Holds q js
    → AllCallable new
    → q.size ≤ rounds
    → (q' : Queue) × (submit rounds q new ≡ some (q', js ++ new)) × Holds q' []
unfolding submit
submit-all rounds q js [] h all fuel =
    let (q', out, h', size, empty) = wait-all rounds q js h (omega (arith, length-Holds q js h)) in
    (q', rw (append-nil, out), h')
submit-all rounds q js (j ∷ new) h (ne, all) fuel =
    let a = add_job-Added rounds q js j h ne fuel in
    let (q', out, h') = submit-all rounds a.next a.left new a.holds all (rw a.size fuel) in
    (q', rw (a.out, out) (rw (regroup a.ran a.left js j new a.order)), h')
