-- ===== src/Jpool/Sleep/Ends.antt =====
-- When `udo_jpool_destroy` of a queue comes to its end
use libcando.Base.{ℕ, zero, suc, ◌+◌, ◌<◌, ◌≤◌, ◌≡◌, refl, ap, ◌≢◌, ◌⊎◌, inl, inr, arith, List}
use native.Mathlib.Decide.{dec_lt, ℕ_discrete}
use libcando.Jpool.{Job, Queue, unlock_force}
use libcando.Jpool.Threads.{
  Worker, loop, poll, got_rear, unready, fetch, got_job, calling, clear_func, clear_arg, finish,
  stopped, Work, go_on, stop, load_rear, ready, not_ready, again, get_job, null_job, some_job, run,
  null_func, null_arg, uncount,
}
use libcando.Jpool.Sleep.{
  Place, awake, load, drowsy, asleep, Nap, acts, forces, spins, tires, loads, sleeps, stays, stirs,
  woken, Owner, at, alerting, forcing, forced, alerting_last, joining, gone, Own, Wake, alert,
  force_alert, last_alert, System, Step, owns, wakes, naps, joins, calls, destroy, force,
}

-- Whatever steps the two make, `udo_jpool_destroy` is through with the queue within `n` of them.
pub Ends : ℕ → System → Type 0
Ends zero s = s.owner ≡ gone
Ends (suc n) s =
    (s.owner ≡ gone) ⊎ (((t : System) × Step s t) × ((t : System) → Step s t → Ends n t))

Ends-gone : (n : ℕ) (s : System) → s.owner ≡ gone → Ends n s
unfolding Ends
Ends-gone zero s e = e
Ends-gone (suc n) s e = inl e

-- The steps that a worker has left to make once the forced unlock is stored
abbrev left : Worker → ℕ
left poll = 10
left (got_rear r) = 9
left unready = 8
left fetch = 7
left (got_job off) = 6
left (calling off) = 5
left (clear_func off) = 4
left (clear_arg off) = 3
left finish = 2
left loop = 1
left stopped = 0

work_left :
    {q q' : Queue} {w w' : Worker} {js : List Job}
    → Work q w q' w' js
    → w ≢ unready
    → q.job_free ≡ unlock_force
    → (left w' < left w) × (q'.job_free ≡ unlock_force)
work_left (go_on e) n f = absurd (e f)
work_left (again e) n f = absurd (e f)
work_left mv n f = (omega arith, f)

-- A worker that has not stopped has a step.
abbrev CanMove : Queue → ℕ → Worker → Type 0
CanMove q i w = (q' : Queue) × (p' : Place) × (js : List Job) × Nap q (awake i w) q' p' js

moved :
    {q q' : Queue} {i : ℕ} {w w' : Worker} {js : List Job}
    → w ≢ unready
    → Work q w q' w' js
    → CanMove q i w
moved n mv = (_, _, _, acts n mv)

can_move :
    (q : Queue) (i : ℕ) (w : Worker) → q.job_free ≡ unlock_force → w ≢ stopped → CanMove q i w
can_move q i loop f n = moved (λ h. ground arith) (stop f)
can_move q i poll f n = moved (λ h. ground arith) load_rear
can_move q i (got_rear r) f n = elim (dec_lt q.front r) [
  | yes h ↦ moved (λ e. ground arith) (ready h)
  | no h ↦ moved (λ e. ground arith) (not_ready (omega arith))
]
can_move q i unready f n = (_, _, _, forces f)
can_move q i fetch f n = moved (λ h. ground arith) get_job
can_move q i (got_job off) f n = elim (ℕ_discrete (q.func off) 0) [
  | yes h ↦ moved (λ e. ground arith) (null_job h)
  | no h ↦ moved (λ e. ground arith) (some_job h)
]
can_move q i (calling off) f n = moved (λ h. ground arith) run
can_move q i (clear_func off) f n = moved (λ h. ground arith) null_func
can_move q i (clear_arg off) f n = moved (λ h. ground arith) null_arg
can_move q i finish f n = moved (λ h. ground arith) uncount
can_move q i stopped f n = absurd (n refl)

stopped_cases : (w : Worker) → (w ≡ stopped) ⊎ (w ≢ stopped)
stopped_cases stopped = inl refl
stopped_cases w = inr (λ h. ground arith)

-- The forced unlock is stored, and the pool is not gone.
abbrev pub IsClosing : Owner → Type 0
IsClosing forced = Unit {0}
IsClosing alerting_last = Unit {0}
IsClosing joining = Unit {0}
IsClosing o = ⊥

-- The wake-ups to come
abbrev pub alerts_left : Owner → ℕ
alerts_left forced = 2
alerts_left alerting_last = 1
alerts_left o = 0

-- The worker is outside `p_udo_futex_wait_cond`, or sleeps with a wake-up to come.
abbrev pub IsUp : Owner → Place → Type 0
IsUp o (awake i w) = Unit {0}
IsUp o (asleep v) = 0 < alerts_left o
IsUp o p = ⊥

abbrev place_left : Place → ℕ
place_left (awake i w) = left w
place_left (asleep v) = 11
place_left p = 0

pub Own-IsClosing :
    {q q' : Queue} {o o' : Owner} {js : List Job} → Own q o q' o' js → IsClosing o → ⊥
Own-IsClosing (calls mv) c = c
Own-IsClosing destroy c = c
Own-IsClosing force c = c

pub Wake-IsClosing :
    {o o' : Owner} → Wake o o' → IsClosing o → IsClosing o' × (alerts_left o' < alerts_left o)
Wake-IsClosing alert c = absurd c
Wake-IsClosing force_alert c = (tt, omega arith)
Wake-IsClosing last_alert c = (tt, omega arith)

woken-IsUp :
    (o o' : Owner) (p : Place)
    → IsUp o p
    → IsUp o' (woken p) × (place_left (woken p) ≤ place_left p)
woken-IsUp o o' (awake i w) u = (tt, omega arith)
woken-IsUp o o' (asleep v) u = (tt, omega arith)
woken-IsUp o o' load u = absurd u
woken-IsUp o o' (drowsy v) u = absurd u

Nap-IsUp :
    {q q' : Queue} {p p' : Place} {js : List Job} (o : Owner)
    → Nap q p q' p' js
    → IsUp o p
    → q.job_free ≡ unlock_force
    → IsUp o p' × (place_left p' < place_left p) × (q'.job_free ≡ unlock_force)
Nap-IsUp o (acts n mv) u f = let (fewer, still) = work_left mv n f in (tt, fewer, still)
Nap-IsUp o (forces e) u f = (tt, omega arith, f)
Nap-IsUp o (spins e h) u f = absurd (e f)
Nap-IsUp o (tires e h) u f = absurd (e f)
Nap-IsUp o loads u f = absurd u
Nap-IsUp o (sleeps e) u f = absurd u
Nap-IsUp o (stays e) u f = absurd u
Nap-IsUp o stirs u f = (tt, omega arith, f)

-- The two are on their way to the end, in fewer than `n` steps.
record Closes (n : ℕ) (s : System) : Type 0 where
  closing : IsClosing s.owner
  stored : s.queue.job_free ≡ unlock_force
  up : IsUp s.owner s.place
  few : alerts_left s.owner + place_left s.place < n

progress :
    (q : Queue) (o : Owner) (p : Place) (added ran : List Job)
    → IsClosing o
    → q.job_free ≡ unlock_force
    → IsUp o p
    → (t : System) × Step (record { queue = q; owner = o; place = p; added = added; ran = ran }) t
progress q forced p added ran c f u = (_, wakes force_alert)
progress q alerting_last p added ran c f u = (_, wakes last_alert)
progress q joining (awake i w) added ran c f u = elim (stopped_cases w) [
  | inl e ↦ (_, joins i refl (ap (awake i) e))
  | inr n ↦ let (q', p', js, nap) = can_move q i w f n in (_, naps nap)
]
progress q joining (asleep v) added ran c f u = absurd (omega arith)
progress q joining load added ran c f u = absurd u
progress q joining (drowsy v) added ran c f u = absurd u
progress q (at m a) p added ran c f u = absurd c
progress q (alerting m a) p added ran c f u = absurd c
progress q forcing p added ran c f u = absurd c
progress q gone p added ran c f u = absurd c

step-Closes :
    (n : ℕ) (s t : System)
    → Closes (suc n) s
    → ((u : System) → Closes n u → Ends n u)
    → Step s t
    → Ends n t
step-Closes n s t c next (owns mv) = absurd (Own-IsClosing mv c.closing)
step-Closes n s t c next (wakes {o} mv) =
    let (closing, fewer) = Wake-IsClosing mv c.closing in
    let (up, less) = woken-IsUp s.owner o s.place c.up in
    next t (record { closing = closing; stored = c.stored; up = up; few = omega (arith, c.few) })
step-Closes n s t c next (naps mv) =
    let (up, fewer, stored) = Nap-IsUp s.owner mv c.up c.stored in
    next t (record { closing = c.closing; stored = stored; up = up; few = omega (arith, c.few) })
step-Closes n s t c next (joins i e f) = Ends-gone n t refl

Closes-Ends : (n : ℕ) (s : System) → Closes n s → Ends n s
unfolding Ends
Closes-Ends zero s c = absurd (omega (arith, c.few))
Closes-Ends (suc n) s c = inr (
  progress s.queue s.owner s.place s.added s.ran c.closing c.stored c.up,
  λ t st. step-Closes n s t c (Closes-Ends n) st,
)

alerts-le : (o : Owner) → alerts_left o ≤ 2
alerts-le forced = omega arith
alerts-le alerting_last = omega arith
alerts-le o = omega arith

left-le : (w : Worker) → left w ≤ 10
left-le loop = omega arith
left-le w = omega arith

place-le : (p : Place) → place_left p ≤ 11
place-le (awake i w) = omega (arith, left-le w)
place-le p = omega arith

-- `udo_jpool_destroy` has stored the forced unlock of a queue. If the worker is outside
-- `p_udo_futex_wait_cond`, or sleeps in it with a wake-up of the caller to come: in every
-- interleaving of the two, spurious wake-ups included, some step is possible until the worker is
-- joined, and it is joined within 14 steps.
pub closing-Ends :
    (s : System)
    → IsClosing s.owner
    → s.queue.job_free ≡ unlock_force
    → IsUp s.owner s.place
    → Ends 14 s
closing-Ends s c f u = Closes-Ends 14 s (record {
  closing = c;
  stored = f;
  up = u;
  few = omega (arith, alerts-le s.owner, place-le s.place);
})
