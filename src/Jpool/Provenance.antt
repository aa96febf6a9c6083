-- ===== src/Jpool/Provenance.antt =====
-- The worker calls no function that was not handed over.
use libcando.Base.{ℕ, ◌≡◌, ◌≢◌, ◌⊎◌, List, [], ◌∷◌}
use libcando.Jpool.{Job, Queue}
use libcando.Jpool.Threads.{
  Next, adding, returning, Caller, out, entered, waiting, reset1, reset2, reset3, reset4, reserve,
  func_of, arg_of, counting, Worker, calling, System,
}

-- A job with this function is in the list.
abbrev pub HasFunc : ℕ → List Job → Type 0
HasFunc f [] = ⊥
HasFunc f (j ∷ js) = (j.func ≡ f) ⊎ HasFunc f js

-- A function that is not NULL and was handed over
abbrev pub Known : List Job → ℕ → Type 0
Known js f = (f ≢ 0) × HasFunc f js

-- Every job of a list has a known function.
abbrev pub AllKnown : List Job → List Job → Type 0
AllKnown js [] = Unit {0}
AllKnown js (k ∷ ks) = Known js k.func × AllKnown js ks

-- The job that the caller has in hand
abbrev next_hand : Next → List Job
next_hand (adding j) = j ∷ []
next_hand returning = []

abbrev in_hand : Caller → List Job
in_hand out = []
in_hand (entered j) = j ∷ []
in_hand (waiting n) = next_hand n
in_hand (reset1 n) = next_hand n
in_hand (reset2 n) = next_hand n
in_hand (reset3 n) = next_hand n
in_hand (reset4 n) = next_hand n
in_hand (reserve j) = j ∷ []
in_hand (func_of off j) = j ∷ []
in_hand (arg_of off j) = []
in_hand counting = []

-- A slot is NULL or known; the worker calls no NULL.
abbrev Calls : Queue → Worker → Type 0
Calls q (calling off) = q.func off ≢ 0
Calls q _ = Unit {0}

record Inv (s : System) : Type 0 where
  slots : (off : ℕ) → s.queue.func off ≢ 0 → HasFunc (s.queue.func off) s.added
  hand : AllKnown s.added (in_hand s.caller)
  call : Calls s.queue s.worker
  past : AllKnown s.added s.ran
