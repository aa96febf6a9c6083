-- ===== src/Jpool/Sleep/Hangs.antt =====
-- The window between the worker's last test and FUTEX_WAIT: `p_udo_futex_wait_cond` loads the word
-- after that test, so that it sleeps on any value, the forced unlock included.
use libcando.Base.{
  ℕ, zero, suc, ◌+◌, ◌^◌, ◌≤◌, ◌<◌, ◌≡◌, refl, ◌≢◌, arith, true, false, List, [], ◌∷◌, ◌++◌,
}
use native.Mathlib.Numerals.{suc-eq-add-one}
use mathlib.Core.List.{append-nil}
use mathlib.Core.Path.{subst}
use libcando.Jpool.{Job, Queue, unlock_force, is_full, can_get_job, reset}
use libcando.Jpool.Threads.{
  out, poll, go_on, load_rear, not_ready, idle, store_job_free, store_job_count, store_front,
  store_rear, add, not_full, take_slot, store_func, store_arg, count, fresh,
}
use libcando.Jpool.Sleep.{
  Place, awake, load, asleep, Nap, acts, spins, tires, loads, sleeps, stirs, woken, using, Owner,
  at, joining, Own, calls, destroy, force, Wake, alert, force_alert, last_alert, System, Step, owns,
  wakes, naps, joins, alerts, Reach, start, later,
}
use libcando.Jpool.Sleep.Ends.{Own-IsClosing, Wake-IsClosing}
use libcando.Futex.Condition.{spin_cnt}

abbrev system : Queue → Owner → Place → List Job → List Job → System
system q o p added ran = record { queue = q; owner = o; place = p; added = added; ran = ran }

-- The caller is outside the pool's functions, and the worker, which found neither a job nor a
-- forced unlock, is about to call `p_udo_futex_wait_cond`.
abbrev pub tired : Queue → List Job → List Job → System
tired q added ran = system q (at using out) load added ran

-- The queue that `udo_jpool_destroy` leaves
abbrev doomed : Queue → Queue
doomed q = record (reset q) { job_free = unlock_force }

Nap-asleep :
    {q q' : Queue} {v : ℕ} {p' : Place} {js : List Job}
    → Nap q (asleep v) q' p' js
    → (q' ≡ q) × (p' ≡ awake spin_cnt poll) × (js ≡ [])
Nap-asleep stirs = (refl, refl, refl)

-- A worker that sleeps while the caller joins it only wakes for no reason.
asleep-Step :
    (q : Queue) (v : ℕ) (added ran : List Job) (u : System)
    → Step (system q joining (asleep v) added ran) u
    → u ≡ system q joining (awake spin_cnt poll) added ran
asleep-Step q v added ran u (owns mv) = absurd (Own-IsClosing mv tt)
asleep-Step q v added ran u (wakes mv) = absurd (omega (arith, (Wake-IsClosing mv tt).1))
asleep-Step q v added ran u (naps mv) =
    let (a, b, c) = Nap-asleep mv in rw (a, b, c, append-nil) refl
asleep-Step q v added ran u (joins i e f) = absurd (ground arith)

module _ {size : ℕ} where
  own :
      {q q' : Queue} {o o' : Owner} {p : Place} {added ran : List Job}
      → Reach size (system q o p added ran)
      → Own q o q' o' []
      → Reach size (system q' o' p added ran)
  own {q'} {o'} {p} {added} {ran} r mv =
      subst (λ l. Reach size (system q' o' p l ran)) (append-nil added) (later r (owns mv))

  wake :
      {q : Queue} {o o' : Owner} {p : Place} {added ran : List Job}
      → Reach size (system q o p added ran)
      → Wake o o'
      → Reach size (system q o' (woken p) added ran)
  wake r mv = later r (wakes mv)

  nap :
      {q q' : Queue} {o : Owner} {p p' : Place} {added ran : List Job}
      → Reach size (system q o p added ran)
      → Nap q p q' p' []
      → Reach size (system q' o p' added ran)
  nap {q'} {o} {p'} {added} {ran} r mv =
      subst (λ l. Reach size (system q' o p' added l)) (append-nil ran) (later r (naps mv))

  -- The worker of a new queue spins `i` rounds.
  spun :
      (i : ℕ) → i ≤ spin_cnt → Reach size (system (fresh size) (at using out) (awake i poll) [] [])
  spun zero h = nap start (acts (λ e. ground arith) (go_on (omega arith)))
  spun (suc i) h =
      let r1 = nap (spun i (omega arith)) (acts (λ e. ground arith) load_rear) in
      let r2 = nap r1 (acts (λ e. ground arith) (not_ready (omega arith))) in
      rw (suc-eq-add-one i) (nap r2 (spins (omega arith) (omega arith)))

  -- The caller hands over nothing for as long.
  pub reach_tired : Reach size (tired (fresh size) [] [])
  reach_tired =
      let r1 = nap (spun spin_cnt (omega arith)) (acts (λ e. ground arith) load_rear) in
      let r2 = nap r1 (acts (λ e. ground arith) (not_ready (omega arith))) in
      nap r2 (tires (omega arith) (omega arith))

  doomed-Reach :
      (q : Queue) (added ran : List Job)
      → Reach size (tired q added ran)
      → q.job_count ≡ 0
      → Reach size (system (doomed q) joining (asleep unlock_force) added ran)
  unfolding alerts
  doomed-Reach q added ran r e =
      let r1 = own (own r destroy) (calls (idle e)) in
      let r2 = own (own r1 (calls store_job_free)) (calls store_job_count) in
      let r3 = own (own r2 (calls store_front)) (calls store_rear) in
      let r4 = wake (wake (own r3 force) force_alert) last_alert in nap (nap r4 loads) (sleeps refl)

  -- Jobs are counted as none, the worker has tested the word and is about to load it again. Then
  -- `udo_jpool_destroy` may store the forced unlock and wake everybody before the load: the worker
  -- sleeps on the forced unlock while the caller joins it, and the two have no step but a wake-up
  -- for no reason. Nothing was added, run or lost on the way.
  pub destroy_hangs :
      (q : Queue) (added ran : List Job)
      → Reach size (tired q added ran)
      → q.job_count ≡ 0
      → (t : System) × Reach size t
        × (t.owner ≡ joining)
        × (t.place ≡ asleep unlock_force)
        × (t.added ≡ added)
        × (t.ran ≡ ran)
        × ((u : System) → Step t u → u ≡ record t { place = awake spin_cnt poll })
  destroy_hangs q added ran r e = (
    system (doomed q) joining (asleep unlock_force) added ran,
    doomed-Reach q added ran r e,
    refl,
    refl,
    refl,
    refl,
    asleep-Step (doomed q) unlock_force added ran,
  )

  -- The same window loses the wake-up of a job: `udo_jpool_add_job` stores it and wakes everybody
  -- before the worker sleeps, which then sleeps with the job in the queue while the caller is
  -- outside.
  pub job_sleeps :
      (q : Queue) (j : Job) (added ran : List Job)
      → Reach size (tired q added ran)
      → j.func ≢ 0
      → j.arg ≢ 0
      → is_full q ≡ false
      → q.front ≤ q.rear
      → q.rear + 16 < 2 ^ 32
      → (t : System) × Reach size t
        × (t.owner ≡ at using out)
        × (t.place ≡ asleep q.job_free)
        × (t.added ≡ added ++ (j ∷ []))
        × (t.ran ≡ ran)
        × (can_get_job t.queue ≡ true)
  unfolding alerts
  job_sleeps q j added ran r f a n le small =
      let r0 = later r (owns (calls (add j f a))) in
      let r1 = own (own r0 (calls (not_full n))) (calls take_slot) in
      let r2 = own (own r1 (calls store_func)) (calls store_arg) in
      let r3 = wake (own r2 (calls count)) alert in
      (_, nap (nap r3 loads) (sleeps refl), refl, refl, refl, refl, ground arith)
