-- ===== src/Jpool/Sleep/Shadow.antt =====
-- Until the pool is destroyed, the queue with a sleeping worker does what `Threads` describes.
use libcando.Base.{ℕ, ◌≡◌, refl, Bool, true, false, List, ◌++◌}
use mathlib.Core.List.{append-nil}
use libcando.Jpool.{Job, Queue}
use libcando.Jpool.Threads.{
  Caller, out, Call, wait, Worker, loop, poll, unready, fetch, Work, again, forced,
}
use libcando.Jpool.Threads
use libcando.Jpool.Sleep.{
  Place, awake, asleep, Nap, acts, forces, spins, tires, loads, sleeps, stays, stirs, woken, Mode,
  using, ending, Owner, at, alerting, forcing, owner_at, owner_after, alerts, Own, calls, destroy,
  force, Wake, alert, force_alert, last_alert, System, owns, wakes, naps, joins, Reach, start,
  later,
}

-- A worker that is about to sleep, or sleeps, has found nothing.
pub worker_of : Place → Worker
worker_of (awake i w) = w
worker_of p = poll

-- A caller that is about to wake the worker has done all else.
pub caller_of : Owner → Caller
caller_of (at m c) = c
caller_of (alerting m c) = c
caller_of o = out

unfoldable pub shadow : System → Threads.System
unfolding worker_of caller_of
shadow s = record {
  queue = s.queue;
  caller = caller_of s.owner;
  worker = worker_of s.place;
  added = s.added;
  ran = s.ran;
}

-- The forced unlock has not been stored.
abbrev pub IsOpen : Owner → Type 0
IsOpen (at m c) = Unit {0}
IsOpen (alerting m c) = Unit {0}
IsOpen forcing = Unit {0}
IsOpen o = ⊥

caller-owner_at : (m : Mode) (c : Caller) → caller_of (owner_at m c) ≡ c
unfolding caller_of
caller-owner_at using c = refl
caller-owner_at ending out = refl
caller-owner_at ending c = refl

caller-owner_after : (b : Bool) (m : Mode) (c : Caller) → caller_of (owner_after b m c) ≡ c
unfolding caller_of
caller-owner_after true m c = refl
caller-owner_after false m c = caller-owner_at m c

worker-woken : (p : Place) → worker_of (woken p) ≡ worker_of p
unfolding worker_of
worker-woken (asleep v) = refl
worker-woken p = refl

module _ {size : ℕ} where
  owns-shadow :
      {q q' : Queue} {o o' : Owner} {js : List Job} (p : Place) (added ran : List Job)
      → Own q o q' o' js
      → IsOpen o'
      → Threads.Reach size
          (shadow (record { queue = q; owner = o; place = p; added = added; ran = ran }))
      → Threads.Reach size
          (shadow (record { queue = q'; owner = o'; place = p; added = added ++ js; ran = ran }))
  unfolding shadow
  owns-shadow p added ran (calls {m} {c} {c'} mv) open_now r =
      rw (caller-owner_after (alerts mv) m c') (Threads.later r (Threads.calls mv))
  owns-shadow p added ran destroy open_now r = Threads.later r (Threads.calls wait)
  owns-shadow p added ran force open_now r = absurd open_now

  wakes-shadow :
      {o o' : Owner} (q : Queue) (p : Place) (added ran : List Job)
      → Wake o o'
      → IsOpen o'
      → Threads.Reach size
          (shadow (record { queue = q; owner = o; place = p; added = added; ran = ran }))
      → Threads.Reach size
          (shadow (record { queue = q; owner = o'; place = woken p; added = added; ran = ran }))
  unfolding shadow
  wakes-shadow q p added ran (alert {m} {c}) open_now r = rw (caller-owner_at m c, worker-woken p) r
  wakes-shadow q p added ran force_alert open_now r = absurd open_now
  wakes-shadow q p added ran last_alert open_now r = absurd open_now

  naps-shadow :
      {q q' : Queue} {p p' : Place} {js : List Job} (o : Owner) (added ran : List Job)
      → Nap q p q' p' js
      → Threads.Reach size
          (shadow (record { queue = q; owner = o; place = p; added = added; ran = ran }))
      → Threads.Reach size
          (shadow (record { queue = q'; owner = o; place = p'; added = added; ran = ran ++ js }))
  unfolding shadow
  naps-shadow o added ran (acts ne mv) r = Threads.later r (Threads.works mv)
  naps-shadow o added ran (forces e) r = Threads.later r (Threads.works (forced e))
  naps-shadow o added ran (spins e h) r = Threads.later r (Threads.works (again e))
  naps-shadow o added ran (tires e h) r = Threads.later r (Threads.works (again e))
  naps-shadow o added ran loads r = rw append-nil r
  naps-shadow o added ran (sleeps e) r = rw append-nil r
  naps-shadow o added ran (stays e) r = rw append-nil r
  naps-shadow o added ran stirs r = rw append-nil r

Own-IsOpen : {q q' : Queue} {o o' : Owner} {js : List Job} → Own q o q' o' js → IsOpen o' → IsOpen o
Own-IsOpen (calls mv) h = tt
Own-IsOpen destroy h = tt
Own-IsOpen force h = absurd h

Wake-IsOpen : {o o' : Owner} → Wake o o' → IsOpen o' → IsOpen o
Wake-IsOpen alert h = tt
Wake-IsOpen force_alert h = absurd h
Wake-IsOpen last_alert h = absurd h

-- Until `udo_jpool_destroy` stores the forced unlock: whatever the steps of the caller and of the
-- worker that sleeps, the queue, the jobs handed over and the jobs run are those of an interleaving
-- in which the worker polls; a worker that goes to sleep, or sleeps, stands there before its test,
-- and a caller that wakes it has done all else.
pub reach-shadow :
    {size : ℕ} {s : System} → Reach size s → IsOpen s.owner → Threads.Reach size (shadow s)
unfolding shadow
reach-shadow start h = Threads.start
reach-shadow (later {s} r (owns mv)) h =
    owns-shadow s.place s.added s.ran mv h (reach-shadow r (Own-IsOpen mv h))
reach-shadow (later {s} r (wakes mv)) h =
    wakes-shadow s.queue s.place s.added s.ran mv h (reach-shadow r (Wake-IsOpen mv h))
reach-shadow (later {s} r (naps mv)) h = naps-shadow s.owner s.added s.ran mv (reach-shadow r h)
reach-shadow (later r (joins i e f)) h = absurd h
