-- ===== src/Jpool/Fifo/Interleaved.antt =====
-- The calls that take turns, next to the interleavings of single accesses
use libcando.Base.{
  ℕ, zero, suc, ◌≤◌, ◌≡◌, ◌≢◌, inl, inr, arith, Option, none, some, List, [], ◌∷◌, ◌++◌, true, ◌==◌,
  Bool-cases,
}
use mathlib.Core.List.{append-nil, append_assoc}
use mathlib.Core.Path.{subst}
use libcando.Jpool.{Job, Queue, unlock_force, is_full, can_get_job}
use libcando.Jpool.Threads.{
  Next, adding, returning, Caller, out, waiting, reserve, after, Call, add, full, not_full, wait,
  idle, store_job_free, store_job_count, store_front, store_rear, take_slot, store_func, store_arg,
  count, Worker, loop, Work, go_on, load_rear, ready, get_job, null_job, some_job, run, null_func,
  null_arg, uncount, System, calls, works, Reach, later,
}
use libcando.Jpool.Fifo
use libcando.Jpool.Fifo.{Holds}
use libcando.Jpool.Fifo.Order.{AllCallable, submit-all}

abbrev pub system : Queue → Caller → Worker → List Job → List Job → System
system q c w added ran = record { queue = q; caller = c; worker = w; added = added; ran = ran }

module _ {size : ℕ} where
  -- A step that hands over no job, and one that runs none
  call :
      {q q' : Queue} {c c' : Caller} {w : Worker} {added ran : List Job}
      → Reach size (system q c w added ran)
      → Call q c q' c' []
      → Reach size (system q' c' w added ran)
  call {q'} {c'} {w} {added} {ran} r mv =
      subst (λ l. Reach size (system q' c' w l ran)) (append-nil added) (later r (calls mv))

  work :
      {q q' : Queue} {c : Caller} {w w' : Worker} {added ran : List Job}
      → Reach size (system q c w added ran)
      → Work q w q' w' []
      → Reach size (system q' c w' added ran)
  work {q'} {c} {w'} {added} {ran} r mv =
      subst (λ l. Reach size (system q' c w' added l)) (append-nil ran) (later r (works mv))

  round-Reach :
      (q : Queue) {c : Caller} {added ran : List Job}
      → q.job_free ≢ unlock_force
      → can_get_job q ≡ true
      → Reach size (system q c loop added ran)
      → Reach size (system (Fifo.round q).0 c loop added (ran ++ (Fifo.round q).1))
  unfolding Fifo.round
  round-Reach q {c} {added} {ran} free can r =
      let got = work (work (work (work r (go_on free)) load_rear) (ready (ground arith))) get_job in
      elim (Bool-cases (q.func q.front == 0)) [
        | inl null ↦ rw (null, append-nil) (work (work got (null_job (ground arith))) uncount)
        | inr real ↦ rw real (
            work
              (work (work (later (work got (some_job (ground arith))) (works run)) null_func)
                null_arg)
              uncount)
      ]

  store_job-Reach :
      (q : Queue) (j : Job) {w : Worker} {added ran : List Job}
      → Reach size (system q (reserve j) w added ran)
      → Reach size (system (Fifo.store_job q j) out w added ran)
  unfolding Fifo.store_job
  store_job-Reach q j r = call (call (call (call r take_slot) store_func) store_arg) count

-- What a call comes to, if it ends: both threads stand where they should, after the jobs it runs.
abbrev Reached :
    ℕ → (Queue → Type 0) → Caller → List Job → List Job → Option (Queue × List Job) → Type 0
Reached size p c added ran none = Unit {0}
Reached size p c added ran (some (q, more)) = Reach size (system q c loop added (ran ++ more)) × p q

abbrev Open : Queue → Type 0
Open q = q.job_free ≢ unlock_force

abbrev Idle : Queue → Type 0
Idle q = Open q × (q.job_count ≡ 0)

job_free-round : (q : Queue) → (Fifo.round q).0.job_free ≡ q.job_free
unfolding Fifo.round
job_free-round q = ground arith

-- Every job has an argument.
abbrev pub AllArgued : List Job → Type 0
AllArgued [] = Unit {0}
AllArgued (j ∷ js) = (j.arg ≢ 0) × AllArgued js

module _ (size : ℕ) where
  prepend-Reached :
      (p : Queue → Type 0) (c : Caller) (added ran js : List Job) (o : Option (Queue × List Job))
      → Reached size p c added (ran ++ js) o
      → Reached size p c added ran (Fifo.prepend js o)
  prepend-Reached p c added ran js none h = h
  prepend-Reached p c added ran js (some (q, more)) h = rw (← append_assoc ran js more) h

  drain-Reached :
      (rounds : ℕ) (q : Queue) (c : Caller) (added ran : List Job)
      → Open q
      → Reach size (system q c loop added ran)
      → Reached size Idle c added ran (Fifo.drain rounds q)
  unfolding Fifo.drain
  drain-Reached zero q c added ran free r = elim (Bool-cases (q.job_count == 0)) [
    | inl done ↦ rw (done, append-nil) (r, (free, ground arith))
    | inr busy ↦ rw busy tt
  ]
  drain-Reached (suc rounds) q c added ran free r = elim (Bool-cases (q.job_count == 0)) [
    | inl done ↦ rw (Fifo.drain, done, append-nil) (r, (free, ground arith))
    | inr busy ↦ elim (Bool-cases (can_get_job q)) [
      | inl can ↦
          rw (Fifo.drain, busy, can)
            (prepend-Reached Idle c added ran (Fifo.round q).1 (Fifo.drain rounds (Fifo.round q).0)
              (drain-Reached rounds (Fifo.round q).0 c added (ran ++ (Fifo.round q).1)
                (rw (job_free-round q) free) (round-Reach q free can r)))
      | inr cannot ↦ rw (Fifo.drain, busy, cannot) tt
    ]
  ]

  and_reset-Reached :
      (n : Next) (added ran : List Job) (o : Option (Queue × List Job))
      → Reached size Idle (waiting n) added ran o
      → Reached size Open (after n) added ran (Fifo.and_reset o)
  and_reset-Reached n added ran none h = h
  and_reset-Reached n added ran (some (q, more)) (r, (free, none_left)) = (
    call (call (call (call (call r (idle none_left)) store_job_free) store_job_count) store_front)
        store_rear,
    λ e. absurd (omega (arith, e)),
  )

  wait-Reached :
      (rounds : ℕ) (q : Queue) (n : Next) (added ran : List Job)
      → Open q
      → Reach size (system q (waiting n) loop added ran)
      → Reached size Open (after n) added ran (Fifo.wait rounds q)
  unfolding Fifo.wait
  wait-Reached rounds q n added ran free r =
      and_reset-Reached n added ran (Fifo.drain rounds q)
        (drain-Reached rounds q (waiting n) added ran free r)

  then_store-Reached :
      (j : Job) (added ran : List Job) (o : Option (Queue × List Job))
      → Reached size Open (reserve j) added ran o
      → Reached size Open out added ran (Fifo.then_store j o)
  unfolding Fifo.store_job
  then_store-Reached j added ran none h = h
  then_store-Reached j added ran (some (q, more)) (r, free) = (store_job-Reach q j r, free)

  add_job-Reached :
      (rounds : ℕ) (q : Queue) (j : Job) (added ran : List Job)
      → j.func ≢ 0
      → j.arg ≢ 0
      → Open q
      → Reach size (system q out loop added ran)
      → Reached size Open out (added ++ (j ∷ [])) ran (Fifo.add_job rounds q j)
  unfolding Fifo.add_job Fifo.store_job
  add_job-Reached rounds q j added ran nf na free r =
      let inside = later r (calls (add j nf na)) in
      elim (Bool-cases (is_full q)) [
        | inl is ↦ rw is (
            then_store-Reached j (added ++ (j ∷ [])) ran (Fifo.wait rounds q) (
              wait-Reached rounds q (adding j) (added ++ (j ∷ [])) ran free
                (call inside (full is))))
        | inr not ↦ rw (not, append-nil) (store_job-Reach q j (call inside (not_full not)), free)
      ]

  and_then-Reached :
      (added added' ran : List Job) (o : Option (Queue × List Job))
      (next : Queue → Option (Queue × List Job))
      → Reached size Open out added ran o
      → ((q : Queue) (more : List Job)
          → Open q
          → Reach size (system q out loop added more)
          → Reached size Open out added' more (next q))
      → Reached size Open out added' ran (Fifo.and_then o next)
  and_then-Reached added added' ran none next h g = tt
  and_then-Reached added added' ran (some (q, more)) next (r, free) g =
      prepend-Reached Open out added' ran more (next q) (g q (ran ++ more) free r)

  submit-Reached :
      (rounds : ℕ) (q : Queue) (js : List Job) (added ran : List Job)
      → AllCallable js
      → AllArgued js
      → Open q
      → Reach size (system q out loop added ran)
      → Reached size Open out (added ++ js) ran (Fifo.submit rounds q js)
  unfolding Fifo.submit
  submit-Reached rounds q [] added ran c a free r =
      rw append-nil (wait-Reached rounds q returning added ran free (call r wait))
  submit-Reached rounds q (j ∷ js) added ran (nf, c) (na, a) free r =
      rw (← append_assoc added (j ∷ []) js) (
        and_then-Reached (added ++ (j ∷ [])) ((added ++ (j ∷ [])) ++ js) ran
          (Fifo.add_job rounds q j) (λ q'. Fifo.submit rounds q' js)
          (add_job-Reached rounds q j added ran nf na free r)
          (λ q' more free' r'. submit-Reached rounds q' js (added ++ (j ∷ [])) more c a free' r'))

  -- On a queue that has room for a job and holds the jobs `js`, with the caller outside the pool's
  -- functions and the worker at the head of its loop, after any interleaving, and no forced unlock:
  -- adding the jobs `new`, which have a function and an argument, and waiting, the two taking turns,
  -- ends, within `q.size` rounds of the worker in each wait. Every job, the old and the new, runs
  -- exactly once, in the order in which it was added, however often the queue fills up on the way.
  -- The queue is then empty, and single accesses of the caller and of the worker lead to it.
  pub submit-Reach :
      (rounds : ℕ) (q : Queue) (js new added ran : List Job)
      → Holds q js
      → AllCallable new
      → AllArgued new
      → q.size ≤ rounds
      → q.job_free ≢ unlock_force
      → Reach size (system q out loop added ran)
      → (q' : Queue) × (Fifo.submit rounds q new ≡ some (q', js ++ new))
        × Holds q' []
        × Reach size (system q' out loop (added ++ new) (ran ++ (js ++ new)))
  submit-Reach rounds q js new added ran h c a fuel free r =
      let (q', e, h') = submit-all rounds q js new h c fuel in
      let reached =
        subst (Reached size Open out (added ++ new) ran) e
          (submit-Reached rounds q new added ran c a free r) in
      (q', e, h', reached.0)
