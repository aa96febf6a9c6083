-- ===== src/Jpool/Fifo.antt =====
-- A queue whose caller and worker take turns: `udo_jpool_add_job` runs to its end, the worker runs
-- whole rounds of `p_run_thread`, and while the caller is in `p_queue_wait` the worker runs.
pub mod Slots
pub mod Order
pub mod Interleaved
use libcando.Base.{
  ℕ, zero, suc, ◌+◌, ◌-◌, ◌^◌, ◌≤◌, ◌<◌, ◌≡◌, refl, ◌≢◌, ap, inl, inr, arith, Option, none, some,
  List, [], ◌∷◌, ◌++◌, length, length-append, true, false, ◌==◌, ltb, leb, if◌then◌else◌,
  Bool-cases, ◌∙◌,
}
use mathlib.Core.List.{append-nil, append_assoc}
use libcando.Jpool.{
  Job, Queue, is_full, can_get_job, reset, add_rear, add_front, put_func, put_arg, add_job_count,
  sub_job_count, job_at, job_reset, job_size, update,
}

-- The end of `udo_jpool_add_job` on a queue that is not full
pub store_job : Queue → Job → Queue
store_job q j = add_job_count (put_arg (put_func (add_rear q) q.rear j.func) q.rear j.arg)

-- A round of `p_run_thread` that finds a job, with the jobs that it runs
pub round : Queue → Queue × List Job
round q =
    let off = q.front in
    let q1 = add_front q in
    if q.func off == 0
    then (sub_job_count q1, [])
    else (sub_job_count (job_reset q1 off), job_at q1 off ∷ [])

abbrev prepend : List Job → Option (Queue × List Job) → Option (Queue × List Job)
prepend js none = none
prepend js (some (q, ran)) = some (q, js ++ ran)

-- The loop of `p_queue_wait`: `none` if the rounds given do not end it. A worker that finds no job
-- makes no round.
pub drain : ℕ → Queue → Option (Queue × List Job)
drain zero q = if q.job_count == 0 then some (q, []) else none
drain (suc rounds) q = elim (q.job_count == 0) [
  | true ↦ some (q, [])
  | false ↦ elim (can_get_job q) [
    | true ↦ prepend (round q).1 (drain rounds (round q).0)
    | false ↦ none
  ]
]

abbrev and_reset : Option (Queue × List Job) → Option (Queue × List Job)
and_reset none = none
and_reset (some (q, ran)) = some (reset q, ran)

-- `p_queue_wait`
pub wait : ℕ → Queue → Option (Queue × List Job)
wait rounds q = and_reset (drain rounds q)

abbrev then_store : Job → Option (Queue × List Job) → Option (Queue × List Job)
then_store j none = none
then_store j (some (q, ran)) = some (store_job q j, ran)

-- `udo_jpool_add_job` from the choice of the queue on, with the jobs that run meanwhile
pub add_job : ℕ → Queue → Job → Option (Queue × List Job)
add_job rounds q j = if is_full q then then_store j (wait rounds q) else some (store_job q j, [])

abbrev and_then :
    Option (Queue × List Job) → (Queue → Option (Queue × List Job)) → Option (Queue × List Job)
and_then none k = none
and_then (some (q, ran)) k = prepend ran (k q)

-- `udo_jpool_add_job` for each job, then `udo_jpool_wait`, with the jobs that run
pub submit : ℕ → Queue → List Job → Option (Queue × List Job)
submit rounds q [] = wait rounds q
submit rounds q (j ∷ js) = and_then (add_job rounds q j) (λ q'. submit rounds q' js)

-- The jobs that stand in the slots from `off` to `stop`
abbrev pub Slots : (ℕ → ℕ) → (ℕ → ℕ) → ℕ → List Job → ℕ → Type 0
Slots func arg off [] stop = off ≡ stop
Slots func arg off (j ∷ js) stop =
    (func off ≡ j.func) × (arg off ≡ j.arg) × (j.func ≢ 0) × Slots func arg (off + job_size) js stop

-- The queue holds these jobs, oldest first.
pub record Holds (q : Queue) (js : List Job) : Type 0 where
  pub room : job_size ≤ q.size
  pub small : q.size < 2 ^ 32
  pub slots : Slots q.func q.arg q.front js q.rear
  pub counted : q.job_count ≡ length js
  pub fits : q.rear ≤ q.size
