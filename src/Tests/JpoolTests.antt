-- ===== src/Tests/JpoolTests.antt =====
-- src/jpool.c at concrete pools and interleavings
use libcando.Base.{◌≤◌, ◌≡◌, refl, arith, some, ok, true, false, List, [], ◌∷◌, ltb}
use libcando.Jpool.{Job, Queue, can_get_job}
use libcando.Jpool.Threads.{System, Reach, start, out, loop, fresh}
use libcando.Jpool.Bounds.{CallerIn, WorkerIn, jobs_in_segment}
use libcando.Jpool.Races.{job_lost, count_wraps}
use libcando.Jpool.Fifo.{submit, Holds}
use libcando.Jpool.Fifo.Interleaved.{system, submit-Reach}
use libcando.Jpool.Layout.{
  CreateInfo, Pool, Answers, data_offset, mapping_size, segment_size, place,
}
use libcando.Jpool.Layout.Placement.{Fits, Placed, place_lem}
use libcando.Jpool.Layout.{create}
use libcando.Jpool.Layout.Created.{Gives}
use libcando.Jpool.Pool as Whole
use libcando.Jpool.Pool.{Working}
use libcando.Jpool.Pool.Once.{accepted, HoldNone}
use libcando.Jpool.Pool.Lifetime.{created_submit_once}
use mathlib.Core.List.{Perm}
use libcando.Macros.{byte_align}

abbrev job : Job
job = record { func = 7; arg = 9 }

job_lost_example :
    (s : System) × Reach 4076 s
    × (s.caller ≡ out)
    × (s.worker ≡ loop)
    × (s.added ≡ job ∷ [])
    × (s.ran ≡ [])
    × (s.queue.job_count ≡ 0)
    × (can_get_job s.queue ≡ false)
job_lost_example = job_lost 4076 (omega arith) (omega arith) job (omega arith) (omega arith)

abbrev reset_race : System
reset_race = (count_wraps 4076 (omega arith) (omega arith) job (omega arith) (omega arith)).0

jobs_in_segment_example :
    CallerIn 4076 reset_race.queue reset_race.caller
    × WorkerIn 4076 reset_race.queue reset_race.worker
jobs_in_segment_example =
    jobs_in_segment 4076 (omega arith) (omega arith)
      ((count_wraps 4076 (omega arith) (omega arith) job (omega arith) (omega arith)).1)

-- A queue with room for two jobs fills up on the third.
abbrev jobs : List Job
jobs = job ∷ record { func = 8; arg = 1 } ∷ record { func = 7; arg = 2 } ∷ job ∷ []

fresh-Holds : Holds (fresh 40) []
fresh-Holds = record {
  room = omega arith;
  small = omega arith;
  slots = refl;
  counted = refl;
  fits = omega arith;
}

submit-Reach_example :
    (q' : Queue) × (submit 40 (fresh 40) jobs ≡ some (q', jobs))
    × Holds q' []
    × Reach 40 (system q' out loop jobs jobs)
submit-Reach_example =
    submit-Reach 40 40 (fresh 40) [] jobs [] [] fresh-Holds (omega arith) (omega arith)
      (omega arith) (omega arith) start

abbrev info : CreateInfo
info = record { size = 4096; count = 4 }

info-Fits : Fits info
info-Fits = omega arith

place_lem_example :
    (4096 ≤ segment_size info)
    × Placed
        (segment_size info)
        (data_offset info)
        (mapping_size info)
        4
        (data_offset info)
        (place (λ t. ltb t 2) 4 0 (segment_size info) (data_offset info) 4)
place_lem_example = place_lem (λ t. ltb t 2) info info-Fits

-- The smallest queue that `udo_jpool_create` makes has eight bytes.
tiny_segment : segment_size (record { size = 1; count = 511 }) ≡ 8
unfolding segment_size mapping_size byte_align
tiny_segment = refl

abbrev pool : Pool
pool = record { free = true; queue_sz = 4096; cur_thread = 2; thread_count = 3; regions = [] }

abbrev no_second_thread : Answers
no_second_thread = record { calloc = true; futex_create = true; pthread_create = λ t. ltb t 1 }

abbrev willing : Answers
willing = record { calloc = true; futex_create = true; pthread_create = λ t. true }

willing-Gives : Gives willing false
willing-Gives = record { memory = refl; mapping = refl; threads = λ t. refl }

created_submit_once_example :
    (p : Pool) × (w : Working) × (ran : List Job) × (create willing false (some info) ≡ ok (some p))
    × (Whole.submit (segment_size info) (Whole.started p) jobs ≡ some (w, ran))
    × Perm ran (accepted jobs)
    × HoldNone w.queues
created_submit_once_example =
    created_submit_once willing false info jobs info-Fits (omega arith) willing-Gives
