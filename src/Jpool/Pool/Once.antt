-- ===== src/Jpool/Pool/Once.antt =====
-- A pool runs every job that it takes, once.
use mathlib.Core.List.{append-nil, append_assoc, Perm, perm_append_comm}
use mathlib.Core.List.Perm
use mathlib.Core.Path.{subst}
use native.Mathlib.Nat.{mod-lt}
use libcando.Base.{
  ℕ, zero, suc, ◌+◌, ◌≤◌, ◌<◌, ◌≡◌, refl, ◌∙◌, ◌≢◌, inl, inr, arith, some, true, false, ◌||◌, List,
  [], ◌∷◌, ◌++◌, length, length-set, get_or, set, ◌==◌, Bool-cases, if◌then◌else◌,
}
use libcando.Jpool.{Job, Queue}
use libcando.Jpool.Threads.{fresh}
use libcando.Jpool.Fifo
use libcando.Jpool.Fifo.{Holds}
use libcando.Jpool.Fifo.Order.{wait-all, add_job-Added, length-Holds}
use libcando.Jpool.Layout.Placement.{moved_on, choose-refused, choose-taken}
use libcando.Jpool.Pool.{Working, put_on, placed, add_job, wait_each, wait, submit}

-- The queues hold these jobs, and their sizes are no more than the rounds.
abbrev pub HoldAll : ℕ → List Queue → List (List Job) → Type 0
HoldAll rounds [] [] = Unit {0}
HoldAll rounds (q ∷ qs) (js ∷ jss) = Holds q js × (q.size ≤ rounds) × HoldAll rounds qs jss
HoldAll rounds qs jss = ⊥

abbrev pub concat : List (List Job) → List Job
concat [] = []
concat (js ∷ jss) = js ++ concat jss

-- What a job that is put on the queue `t` leaves, and runs
record PutOn (rounds : ℕ) (qs : List Queue) (jss : List (List Job)) (t : ℕ) (j : Job) : Type 0 where
  next : Queue
  ran : List Job
  left : List (List Job)
  out : Fifo.add_job rounds (get_or qs t (fresh 0)) j ≡ some (next, ran)
  holds : HoldAll rounds (set qs t next) left
  same : Perm (ran ++ concat left) (concat jss ++ (j ∷ []))

first_perm :
    (ran left js rest : List Job) (j : Job)
    → ran ++ left ≡ js ++ (j ∷ [])
    → Perm (ran ++ (left ++ rest)) ((js ++ rest) ++ (j ∷ []))
first_perm ran left js rest j e =
    rw
      (
        ← append_assoc ran left rest,
        e,
        append_assoc js (j ∷ []) rest,
        append_assoc js rest (j ∷ []),
      )
      (Perm.append_left js (perm_append_comm (j ∷ []) rest))

later_perm :
    (ran js left rest : List Job) (j : Job)
    → Perm (ran ++ left) (rest ++ (j ∷ []))
    → Perm (ran ++ (js ++ left)) ((js ++ rest) ++ (j ∷ []))
later_perm ran js left rest j p =
    rw (← append_assoc ran js left, append_assoc js rest (j ∷ []))
      (Perm.trans (Perm.append_right left (perm_append_comm ran js))
        (rw (append_assoc js ran left) (Perm.append_left js p)))

put_on_lem :
    (rounds : ℕ) (qs : List Queue) (jss : List (List Job)) (t : ℕ) (j : Job)
    → HoldAll rounds qs jss
    → t < length qs
    → j.func ≢ 0
    → PutOn rounds qs jss t j
put_on_lem rounds [] jss t j h lt ne = absurd (omega arith)
put_on_lem rounds (q ∷ qs) [] t j h lt ne = absurd h
put_on_lem rounds (q ∷ qs) (js ∷ jss) zero j (h, le, rest) lt ne =
    let a = add_job-Added rounds q js j h ne le in
    record {
      next = a.next;
      ran = a.ran;
      left = a.left ∷ jss;
      out = a.out;
      holds = (a.holds, rw (a.size) le, rest);
      same = first_perm a.ran a.left js (concat jss) j a.order;
    }
put_on_lem rounds (q ∷ qs) (js ∷ jss) (suc t) j (h, le, rest) lt ne =
    let p = put_on_lem rounds qs jss t j rest (omega arith) ne in
    record {
      next = p.next;
      ran = p.ran;
      left = js ∷ p.left;
      out = p.out;
      holds = (h, le, p.holds);
      same = later_perm p.ran js (concat p.left) (concat jss) j p.same;
    }

-- Every queue is empty.
abbrev pub HoldNone : List Queue → Type 0
HoldNone [] = Unit {0}
HoldNone (q ∷ qs) = Holds q [] × HoldNone qs

wait_each-all :
    (rounds : ℕ) (qs : List Queue) (jss : List (List Job))
    → HoldAll rounds qs jss
    → (qs' : List Queue) × (wait_each rounds qs ≡ some (qs', concat jss)) × HoldNone qs'
unfolding wait_each
wait_each-all rounds [] [] h = ([], refl, tt)
wait_each-all rounds [] (js ∷ jss) h = absurd h
wait_each-all rounds (q ∷ qs) [] h = absurd h
wait_each-all rounds (q ∷ qs) (js ∷ jss) (h, le, rest) =
    let (q', out, h', size, empty) = wait-all rounds q js h (omega (arith, length-Holds q js h)) in
    let (qs', outs, none_left) = wait_each-all rounds qs jss rest in
    (q' ∷ qs', rw (out, outs) refl, (h', none_left))

-- The jobs with a function and an argument; `udo_jpool_add_job` refuses the others.
pub accepted : List Job → List Job
accepted [] = []
accepted (j ∷ js) = let rest = accepted js in if j.func == 0 || j.arg == 0 then rest else j ∷ rest

-- The next job goes to one of the queues.
record IsReady (rounds : ℕ) (w : Working) (jss : List (List Job)) : Type 0 where
  holds : HoldAll rounds w.queues jss
  threads : length w.queues ≡ w.pool.thread_count
  turn : w.pool.cur_thread < w.pool.thread_count

-- The result of `submit` for these jobs
abbrev Submitted : ℕ → Working → List Job → List Job → Type 0
Submitted rounds w new jobs =
    (w' : Working) × (ran : List Job) × (submit rounds w new ≡ some (w', ran))
    × Perm ran jobs
    × HoldNone w'.queues

add_job-refused :
    (rounds : ℕ) (w : Working) (j : Job)
    → (j.func == 0 || j.arg == 0) ≡ true
    → add_job rounds w j ≡ some (w, [])
unfolding add_job
add_job-refused rounds w j bad = rw (choose-refused w.pool j bad) refl

put_on_with :
    (rounds : ℕ) (w : Working) (t : ℕ) (j : Job) (q : Queue) (ran : List Job)
    → Fifo.add_job rounds (get_or w.queues t (fresh 0)) j ≡ some (q, ran)
    → put_on rounds w t j ≡ some (record w { queues = set w.queues t q }, ran)
unfolding put_on
put_on_with rounds w t j q ran e = rw (e, put_on) refl

add_job-PutOn :
    (rounds : ℕ) (w : Working) (jss : List (List Job)) (j : Job)
    → (j.func == 0 || j.arg == 0) ≡ false
    → (p : PutOn rounds w.queues jss w.pool.cur_thread j)
    → add_job rounds w j
      ≡ some
          (record { pool = moved_on w.pool; queues = set w.queues w.pool.cur_thread p.next }, p.ran)
unfolding add_job placed
add_job-PutOn rounds w jss j good p = rw (choose-taken w.pool j good) (
    put_on_with rounds (record w { pool = moved_on w.pool }) w.pool.cur_thread j p.next p.ran p.out)

taken_perm :
    (ran left pending new : List Job) (more : List Job) (j : Job)
    → Perm (ran ++ left) (pending ++ (j ∷ []))
    → Perm more (left ++ new)
    → Perm (ran ++ more) (pending ++ (j ∷ new))
taken_perm ran left pending new more j p q = Perm.trans (Perm.append_left ran q) (
    rw (← append_assoc ran left new) (
      subst (λ l. Perm ((ran ++ left) ++ new) l) (append_assoc pending (j ∷ []) new)
        (Perm.append_right new p)))

wait_with :
    (rounds : ℕ) (w : Working) (qs : List Queue) (ran : List Job)
    → wait_each rounds w.queues ≡ some (qs, ran)
    → wait rounds w ≡ some (record w { queues = qs }, ran)
unfolding wait
wait_with rounds w qs ran e = rw (e, wait) refl

submit-Submitted :
    (rounds : ℕ) (w : Working) (jss : List (List Job)) (new : List Job)
    → IsReady rounds w jss
    → Submitted rounds w new (concat jss ++ accepted new)
unfolding submit accepted
submit-Submitted rounds w jss [] r =
    let (qs, out, empty) = wait_each-all rounds w.queues jss r.holds in
    (
      record w { queues = qs },
      concat jss,
      wait_with rounds w qs (concat jss) out,
      rw (append-nil (concat jss)) (Perm.refl _),
      empty,
    )
submit-Submitted rounds w jss (j ∷ js) r = elim (Bool-cases (j.func == 0 || j.arg == 0)) [
  | inl bad ↦
      let (w', ran, out, same, empty) = submit-Submitted rounds w jss js r in
      (w', ran, rw (add_job-refused rounds w j bad, out) refl, rw bad same, empty)
  | inr good ↦
      let t = w.pool.cur_thread in
      let p =
        put_on_lem rounds w.queues jss t j r.holds (omega (arith, r.threads, r.turn))
          (ground (arith, good)) in
      let next : Working = record { pool = moved_on w.pool; queues = set w.queues t p.next } in
      let (w', ran, out, same, empty) = submit-Submitted rounds next p.left js (record {
        holds = p.holds;
        threads = length-set w.queues t p.next ∙ r.threads;
        turn = mod-lt (t + 1) (omega (arith, r.turn));
      }) in
      (
        w',
        p.ran ++ ran,
        rw (add_job-PutOn rounds w jss j good p, out) refl,
        rw good (taken_perm p.ran (concat p.left) (concat jss) (accepted js) ran j p.same same),
        empty,
      )
]

-- A pool whose workers take turns with the caller and may run as many rounds as a queue has bytes,
-- with queues that hold the jobs `jss`: adding the jobs `new` and waiting ends; the jobs that run
-- are those that the queues held and those of `new` with a function and an argument, each exactly
-- once, and every queue is then empty.
pub submit_once :
    (rounds : ℕ) (w : Working) (jss : List (List Job)) (new : List Job)
    → HoldAll rounds w.queues jss
    → length w.queues ≡ w.pool.thread_count
    → w.pool.cur_thread < w.pool.thread_count
    → (w' : Working) × (ran : List Job) × (submit rounds w new ≡ some (w', ran))
      × Perm ran (concat jss ++ accepted new)
      × HoldNone w'.queues
submit_once rounds w jss new h threads turn =
    submit-Submitted rounds w jss new (record { holds = h; threads = threads; turn = turn })
