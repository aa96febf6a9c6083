-- ===== src/Jpool/Timely.antt =====
-- The interleavings of `Threads` in which the worker takes no slot before its job is written in full,
-- and none between the two stores of `p_queue_reset` that move the ends of the queue.
pub mod Ledger
pub mod Calls
pub mod Works
pub mod Complete
pub mod Drain
use libcando.Base.{ℕ, ◌<◌, List, ◌++◌}
use libcando.Jpool.{Job, Queue}
use libcando.Jpool.Threads.{
  Caller, reset4, func_of, arg_of, Call, Worker, got_rear, Work, System, init, Reach, start, later,
  calls, works,
}

-- Where the jobs that are written in full end
abbrev pub written : Queue → Caller → ℕ
written q (func_of off j) = off
written q (arg_of off j) = off
written q (reset4 n) = 0
written q c = q.rear

-- A worker that is about to take a slot, as it found `rear` behind it, finds a written one.
abbrev pub OnTime : Queue → Caller → Worker → Type 0
OnTime q c (got_rear r) = q.front < r → q.front < written q c
OnTime q c w = Unit {0}

pub data Timely (a : System) : System → Type 0 where
  begin : Timely a a
  called :
      {s : System} {q : Queue} {c : Caller} {js : List Job}
      → Timely a s
      → Call s.queue s.caller q c js
      → Timely a (record s { queue = q; caller = c; added = s.added ++ js })
  worked :
      {s : System} {q : Queue} {w : Worker} {js : List Job}
      → Timely a s
      → OnTime s.queue s.caller s.worker
      → Work s.queue s.worker q w js
      → Timely a (record s { queue = q; worker = w; ran = s.ran ++ js })

pub Timely-Reach : {size : ℕ} {s : System} → Timely (init size) s → Reach size s
Timely-Reach begin = start
Timely-Reach (called t mv) = later (Timely-Reach t) (calls mv)
Timely-Reach (worked t on mv) = later (Timely-Reach t) (works mv)

pub Timely-append : {a b c : System} → Timely a b → Timely b c → Timely a c
Timely-append t begin = t
Timely-append t (called u mv) = called (Timely-append t u) mv
Timely-append t (worked u on mv) = worked (Timely-append t u) on mv
