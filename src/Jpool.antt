-- ===== src/Jpool.antt =====
-- src/jpool.c: a job queue in shared memory, filled by one caller and emptied by one worker thread.
-- Each function on a queue is here; the children run them, one after the other or interleaved.
pub mod Layout
pub mod Fifo
pub mod Threads
pub mod Bounds
pub mod Provenance
pub mod Timely
pub mod Races
pub mod Sleep
pub mod Pool
use libcando.Base.{
  ℕ, ◌+◌, ◌-◌, ◌*◌, ◌^◌, ◌≡◌, Bool, not, List, [], ◌∷◌, ltb, leb, ◌==◌, if◌then◌else◌, add32, sub32,
}

-- THREADS_MAX
abbrev pub threads_max : ℕ
threads_max = 2 ^ 9

-- `sizeof(struct udo_jpool_job)`
abbrev pub job_size : ℕ
job_size = 16

-- UDO_FUTEX_UNLOCK_FORCE
abbrev pub unlock_force : ℕ
unlock_force = 0x66AFB55C

-- `struct udo_jpool_job`: a function and its argument, 0 for NULL
pub record Job : Type 0 where
  pub func : ℕ
  pub arg : ℕ

-- `struct udo_jpool_queue`, with the words and the jobs that it points to. A job is found by its
-- byte offset in the queue's segment, which has `size` bytes.
pub record Queue : Type 0 where
  pub job_free : ℕ
  pub job_count : ℕ
  pub front : ℕ
  pub rear : ℕ
  pub size : ℕ
  pub func : ℕ → ℕ
  pub arg : ℕ → ℕ

abbrev pub update : (ℕ → ℕ) → ℕ → ℕ → ℕ → ℕ
update f p v q = if p == q then v else f q

-- `p_queue_can_get_job`
abbrev pub can_get_job : Queue → Bool
can_get_job q = ltb q.front q.rear

-- `p_queue_empty`
abbrev pub is_empty : Queue → Bool
is_empty q = q.rear == 0

-- `p_queue_full`
pub is_full : Queue → Bool
is_full q = leb (sub32 q.size job_size) q.rear

-- `p_queue_can_loop`
abbrev pub can_loop : Queue → Bool
can_loop q = not (q.job_free == unlock_force)

-- The stores of `p_queue_reset`, in their order
abbrev pub reset_job_free : Queue → Queue
reset_job_free q = record q { job_free = 0 }

abbrev pub reset_job_count : Queue → Queue
reset_job_count q = record q { job_count = 0 }

abbrev pub reset_front : Queue → Queue
reset_front q = record q { front = 0 }

abbrev pub reset_rear : Queue → Queue
reset_rear q = record q { rear = 0 }

-- `p_queue_reset`
abbrev pub reset : Queue → Queue
reset q = reset_rear (reset_front (reset_job_count (reset_job_free q)))

-- `p_queue_add_job_count`, `p_queue_sub_job_count`
abbrev pub add_job_count : Queue → Queue
add_job_count q = record q { job_count = add32 q.job_count 1 }

abbrev pub sub_job_count : Queue → Queue
sub_job_count q = record q { job_count = sub32 q.job_count 1 }

-- `p_queue_add_rear`, `p_queue_add_front`: the offset before the addition is what they return.
abbrev pub add_rear : Queue → Queue
add_rear q = record q { rear = add32 q.rear job_size }

abbrev pub add_front : Queue → Queue
add_front q = record q { front = add32 q.front job_size }

-- Stores to the members of the job at an offset
abbrev pub put_func : Queue → ℕ → ℕ → Queue
put_func q off f = record q { func = update q.func off f }

abbrev pub put_arg : Queue → ℕ → ℕ → Queue
put_arg q off a = record q { arg = update q.arg off a }

abbrev pub job_at : Queue → ℕ → Job
job_at q off = record { func = q.func off; arg = q.arg off }

-- `p_queue_job_reset`
abbrev pub job_reset : Queue → ℕ → Queue
job_reset q off = put_arg (put_func q off 0) off 0
