-- ===== src/Jpool/Pool/Lifetime.antt =====
-- A pool from its creation on
use mathlib.Core.List.{Perm}
use libcando.Base.{ℕ, ◌^◌, ◌≤◌, ◌<◌, ◌≡◌, refl, ◌∙◌, arith, Bool, some, List, [], ◌∷◌, length, ok}
use libcando.Jpool.{Job, job_size}
use libcando.Jpool.Layout.{CreateInfo, Region, Pool, Answers, segment_size, create}
use libcando.Jpool.Layout.Placement.{Fits, segment_size-room}
use libcando.Jpool.Layout.Created.{AllSized, Gives, create-made}
use libcando.Jpool.Pool.{Working, submit, queues_of, started}
use libcando.Jpool.Pool.Once.{HoldAll, HoldNone, concat, accepted, submit_once}

-- No job for each queue
abbrev no_jobs : List Region → List (List Job)
no_jobs [] = []
no_jobs (r ∷ rs) = [] ∷ no_jobs rs

concat-no_jobs : (rs : List Region) → concat (no_jobs rs) ≡ []
concat-no_jobs [] = refl
concat-no_jobs (r ∷ rs) = concat-no_jobs rs

length-queues_of : (rs : List Region) → length (queues_of rs) ≡ length rs
unfolding queues_of
length-queues_of [] = refl
length-queues_of (r ∷ rs) = omega (arith, length-queues_of rs)

fresh-HoldAll :
    (size rounds : ℕ) (rs : List Region)
    → AllSized size rs
    → job_size ≤ size
    → size < 2 ^ 32
    → size ≤ rounds
    → HoldAll rounds (queues_of rs) (no_jobs rs)
unfolding queues_of
fresh-HoldAll size rounds [] all room small le = tt
fresh-HoldAll size rounds (r ∷ rs) (e, all) room small le = (
  record { room = rw e room; small = rw e small; slots = refl; counted = refl; fits = omega arith },
  rw e le,
  fresh-HoldAll size rounds rs all room small le,
)

-- A pool is created whose segments have room for a job, with a mapping of a 32-bit size, by a system
-- that gives it what it asks for; then jobs are added and waited for, its workers taking turns with
-- the caller. The creation succeeds and the waits end, within as many rounds in each wait as a
-- segment has bytes; each job with a function and an argument runs exactly once and no other runs,
-- and all queues are empty then.
pub created_submit_once :
    (os : Answers) (own : Bool) (i : CreateInfo) (jobs : List Job)
    → Fits i
    → job_size ≤ i.size
    → Gives os own
    → (p : Pool) × (w : Working) × (ran : List Job) × (create os own (some i) ≡ ok (some p))
      × (submit (segment_size i) (started p) jobs ≡ some (w, ran))
      × Perm ran (accepted jobs)
      × HoldNone w.queues
unfolding started
created_submit_once os own i jobs f room gives =
    let (p, made, c) = create-made os own i f gives in
    let (asked, inside, small) = segment_size-room i f in
    let all =
      fresh-HoldAll (segment_size i) (segment_size i) p.regions c.sized (omega (arith, asked)) small
        (omega arith) in
    let (w, ran, out, same, empty) =
      submit_once (segment_size i) (started p) (no_jobs p.regions) jobs all
        (length-queues_of p.regions ∙ c.threads) c.turn in
    (p, w, ran, made, out, rw (concat-no_jobs p.regions) at same, empty)
