-- ===== src/Jpool/Races.antt =====
-- Interleavings of one `udo_jpool_add_job`, and of one `p_queue_reset`, with a worker that takes
-- the job early.
use libcando.Base.{ℕ, ◌-◌, ◌^◌, ◌≡◌, refl, ◌≢◌, ◌<◌, arith, [], ◌∷◌, false}
use libcando.Jpool.{Job, is_full, can_get_job}
use libcando.Jpool.Threads.{
  out, add, not_full, take_slot, store_func, store_arg, count, wait, idle, store_job_free,
  store_job_count, store_front, store_rear, loop, go_on, load_rear, ready, get_job, null_job,
  some_job, run, null_func, null_arg, uncount, System, calls, works, fresh, Reach, start, later,
}

pub not_full-fresh : (size : ℕ) → 16 < size → size < 2 ^ 32 → is_full (fresh size) ≡ false
unfolding is_full
not_full-fresh size h k = ground arith

module _ (size : ℕ) (room : 16 < size) (small : size < 2 ^ 32) (j : Job) (f : j.func ≢ 0)
    (a : j.arg ≢ 0) where
  -- `rear` moves before the job is written: a worker that looks in between finds NULL, skips the
  -- slot and counts it as done. When `udo_jpool_add_job` has returned, the job is not counted, the
  -- worker is back at the head of its loop and finds nothing, and the job has not run.
  pub job_lost :
      (s : System) × Reach size s
      × (s.caller ≡ out)
      × (s.worker ≡ loop)
      × (s.added ≡ j ∷ [])
      × (s.ran ≡ [])
      × (s.queue.job_count ≡ 0)
      × (can_get_job s.queue ≡ false)
  job_lost =
      let r1 = later start (calls (add j f a)) in
      let r2 = later r1 (calls (not_full (not_full-fresh size room small))) in
      let r3 = later r2 (calls take_slot) in
      let r4 = later r3 (works (go_on (omega arith))) in
      let r5 = later r4 (works load_rear) in
      let r6 = later r5 (works (ready (omega arith))) in
      let r7 = later r6 (works get_job) in
      let r8 = later r7 (works (null_job refl)) in
      let r9 = later r8 (works uncount) in
      let r10 = later r9 (calls store_func) in
      let r11 = later r10 (calls store_arg) in
      (_, later r11 (calls count), refl, refl, refl, refl, refl, refl)

  -- A worker that looks between the writes of the job's two members calls the function with NULL in
  -- the place of its argument.
  pub argument_lost :
      (s : System) × Reach size s
      × (s.added ≡ j ∷ [])
      × (s.ran ≡ record { func = j.func; arg = 0 } ∷ [])
  argument_lost =
      let r1 = later start (calls (add j f a)) in
      let r2 = later r1 (calls (not_full (not_full-fresh size room small))) in
      let r3 = later r2 (calls take_slot) in
      let r4 = later r3 (calls store_func) in
      let r5 = later r4 (works (go_on (omega arith))) in
      let r6 = later r5 (works load_rear) in
      let r7 = later r6 (works (ready (omega arith))) in
      let r8 = later r7 (works get_job) in
      let r9 = later r8 (works (some_job f)) in (_, later r9 (works run), refl, refl)

  -- `p_queue_reset` clears `front` before `rear`: a worker that looks in between takes a job that
  -- it has run already, finds NULL, and counts down from 0. When `udo_jpool_wait` has returned,
  -- the count of a queue with no job is 2 ^ 32 - 1 and the worker finds nothing to take.
  pub count_wraps :
      (s : System) × Reach size s
      × (s.caller ≡ out)
      × (s.worker ≡ loop)
      × (s.ran ≡ s.added)
      × (s.queue.job_count ≡ 2 ^ 32 - 1)
      × (can_get_job s.queue ≡ false)
  count_wraps =
      let r1 = later start (calls (add j f a)) in
      let r2 = later r1 (calls (not_full (not_full-fresh size room small))) in
      let r3 = later r2 (calls take_slot) in
      let r4 = later r3 (calls store_func) in
      let r5 = later r4 (calls store_arg) in
      let r6 = later r5 (calls count) in
      let w1 = later r6 (works (go_on (omega arith))) in
      let w2 = later w1 (works load_rear) in
      let w3 = later w2 (works (ready (omega arith))) in
      let w4 = later w3 (works get_job) in
      let w5 = later w4 (works (some_job f)) in
      let w6 = later w5 (works run) in
      let w7 = later w6 (works null_func) in
      let w8 = later w7 (works null_arg) in
      let w9 = later w8 (works uncount) in
      let c1 = later w9 (calls wait) in
      let c2 = later c1 (calls (idle refl)) in
      let c3 = later c2 (calls store_job_free) in
      let c4 = later c3 (calls store_job_count) in
      let c5 = later c4 (calls store_front) in
      let x1 = later c5 (works (go_on (omega arith))) in
      let x2 = later x1 (works load_rear) in
      let x3 = later x2 (works (ready (omega arith))) in
      let x4 = later x3 (works get_job) in
      let x5 = later x4 (works (null_job refl)) in
      let x6 = later x5 (works uncount) in
      (_, later x6 (calls store_rear), refl, refl, refl, refl, refl)
