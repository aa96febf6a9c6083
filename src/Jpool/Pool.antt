-- ===== src/Jpool/Pool.antt =====
-- A pool of any number of queues, whose caller and workers take turns: `udo_jpool_add_job` with its
-- choice of the queue, and `udo_jpool_wait`. While the caller waits for a queue, that queue's worker
-- runs.
pub mod Once
pub mod Lifetime
use libcando.Base.{ℕ, Option, none, some, List, [], ◌∷◌, ◌++◌, get_or, set}
use libcando.Jpool.{Job, Queue}
use libcando.Jpool.Threads.{fresh}
use libcando.Jpool.Fifo
use libcando.Jpool.Layout.{Region, Pool, Added, refused, queued, choose}

-- `struct udo_jpool` with its queues
pub record Working : Type 0 where
  pub pool : Pool
  pub queues : List Queue

-- The queues that `udo_jpool_create` has reset
pub queues_of : List Region → List Queue
queues_of [] = []
queues_of (r ∷ rs) = fresh r.size ∷ queues_of rs

pub started : Pool → Working
started p = record { pool = p; queues = queues_of p.regions }

-- The rest of `udo_jpool_add_job` on the queue `t`
pub put_on : (rounds : ℕ) → Working → (t : ℕ) → Job → Option (Working × List Job)
put_on rounds w t j = elim (Fifo.add_job rounds (get_or w.queues t (fresh 0)) j) [
  | none ↦ none
  | some (q, ran) ↦ some (record w { queues = set w.queues t q }, ran)
]

-- A job that is refused leaves the pool alone.
placed : (rounds : ℕ) → Working → Job → Option Pool × Added → Option (Working × List Job)
unfolding put_on
placed rounds w j (p, refused) = some (w, [])
placed rounds w j (none, queued t) = none
placed rounds w j (some p, queued t) = put_on rounds (record w { pool = p }) t j

-- `udo_jpool_add_job`, with the jobs that run meanwhile
pub add_job : (rounds : ℕ) → Working → Job → Option (Working × List Job)
unfolding placed
add_job rounds w j = placed rounds w j (choose (some w.pool) j)

abbrev both :
    Option (Queue × List Job) → Option (List Queue × List Job) → Option (List Queue × List Job)
both (some (q, ran)) (some (qs, more)) = some (q ∷ qs, ran ++ more)
both _ _ = none

-- The loop of `udo_jpool_wait`
pub wait_each : (rounds : ℕ) → List Queue → Option (List Queue × List Job)
wait_each rounds [] = some ([], [])
wait_each rounds (q ∷ qs) = both (Fifo.wait rounds q) (wait_each rounds qs)

-- `udo_jpool_wait`
pub wait : (rounds : ℕ) → Working → Option (Working × List Job)
unfolding wait_each
wait rounds w = elim (wait_each rounds w.queues) [
  | none ↦ none
  | some (qs, ran) ↦ some (record w { queues = qs }, ran)
]

abbrev and_then :
    Option (Working × List Job)
    → (Working → Option (Working × List Job))
    → Option (Working × List Job)
and_then none k = none
and_then (some (w, ran)) k = elim (k w) [ none ↦ none | some (w', more) ↦ some (w', ran ++ more) ]

-- `udo_jpool_add_job` for each job, then `udo_jpool_wait`, with the jobs that run
pub submit : (rounds : ℕ) → Working → List Job → Option (Working × List Job)
unfolding add_job wait
submit rounds w [] = wait rounds w
submit rounds w (j ∷ js) = and_then (add_job rounds w j) (λ w'. submit rounds w' js)
