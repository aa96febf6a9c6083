-- ===== src/Jpool/Layout.antt =====
-- The parts of src/jpool.c that are about the whole pool: `udo_jpool_create` lays the queues out
-- in one mapping, `udo_jpool_add_job` chooses a queue, `udo_jpool_destroy` ends the threads.
pub mod Placement
pub mod Created
use libcando.Base.{
  ℕ, zero, suc, ◌+◌, ◌-◌, ◌*◌, ◌/◌, ◌%◌, Bool, true, false, Option, none, some, List, [], ◌∷◌, ◌||◌,
  not, ◌==◌, leb, ltb, if◌then◌else◌, Outcome, ok, fault, ◌>>=◌, u32, add32, sub32, add64, mul64,
  length,
}
use libcando.Macros.{byte_align, page_size}
use libcando.Jpool.{Job, threads_max}

-- `struct udo_jpool_create_info`
pub record CreateInfo : Type 0 where
  pub size : ℕ
  pub count : ℕ

-- A thread's `struct udo_jpool_queue`; its pointers are byte offsets from `queue_data`.
pub record Region : Type 0 where
  pub size : ℕ
  pub base : ℕ
  pub job_free : ℕ
  pub job_count : ℕ
  pub front : ℕ
  pub rear : ℕ

-- `struct udo_jpool`. `regions` are the queues that have a thread, out of `thread_count`.
pub record Pool : Type 0 where
  pub free : Bool
  pub queue_sz : ℕ
  pub cur_thread : ℕ
  pub thread_count : ℕ
  pub regions : List Region

-- What the operating system answers in `udo_jpool_create`.
pub record Answers : Type 0 where
  pub calloc : Bool
  pub futex_create : Bool
  pub pthread_create : ℕ → Bool

-- `offset + (JOB_QUEUE_MEMBER_SIZE * jpool_info->count)`
abbrev pub data_offset : CreateInfo → ℕ
data_offset i = u32 (4 + 16 * i.count)

-- `futex_info.size`
unfoldable pub mapping_size : CreateInfo → ℕ
mapping_size i = byte_align (add64 (data_offset i) (mul64 i.size i.count)) page_size

-- The size of a queue's segment
unfoldable pub segment_size : CreateInfo → ℕ
segment_size i = sub32 (u32 (mapping_size i)) (data_offset i) / i.count

-- The loop of `udo_jpool_create` over `n` more threads, up to one that does not start
pub place : (ℕ → Bool) → (n t queue_sz data_off offset : ℕ) → List Region
place starts zero t queue_sz data_off offset = []
place starts (suc n) t queue_sz data_off offset =
    let r : Region = record {
      size = queue_sz;
      base = data_off;
      job_free = offset;
      job_count = offset + 4;
      front = offset + 2 * 4;
      rear = offset + 3 * 4;
    } in
    let rest = place starts n (t + 1) queue_sz (add32 data_off queue_sz) (add32 offset 16) in
    if starts t then r ∷ rest else []

-- `udo_jpool_destroy`: the queues whose threads it ends. A thread that never started has no queue
-- to wait for and no thread to join.
pub destroy : Option Pool → Outcome (List Region)
destroy none = ok []
destroy (some p) = if length p.regions == p.thread_count then ok p.regions else fault

-- The end of `udo_jpool_create`: a thread that does not start ends the pool.
finish_create : Pool → Outcome (Option Pool)
unfolding destroy
finish_create p =
    if length p.regions == p.thread_count
    then ok (some p)
    else (do ended ← destroy (some p); ok none)

-- `udo_jpool_create`; `own` is whether the caller passes the memory for the pool, which is zero, as
-- `udo_jpool_destroy` leaves it: a failure before the threads then finds no thread to end.
pub create : Answers → (own : Bool) → Option CreateInfo → Outcome (Option Pool)
unfolding finish_create place segment_size
create os own none = ok none
create os own (some i) =
    if i.size == 0 || i.count == 0 || leb threads_max i.count
    then ok none
    else if not (own || os.calloc) || not os.futex_create
    then ok none
    else finish_create (record {
      free = not own;
      queue_sz = u32 (mapping_size i);
      cur_thread = 0;
      thread_count = i.count;
      regions = place os.pthread_create i.count 0 (segment_size i) (data_offset i) 4;
    })

-- What `udo_jpool_add_job` answers: -1, or 0 with the queue that it chose.
pub data Added : Type 0 where
  refused : Added
  queued : ℕ → Added

-- `udo_jpool_add_job` up to the choice of the queue
pub choose : Option Pool → Job → Option Pool × Added
choose none j = (none, refused)
choose (some p) j =
    if j.func == 0 || j.arg == 0
    then (some p, refused)
    else (some (record p { cur_thread = (p.cur_thread + 1) % p.thread_count }), queued p.cur_thread)
