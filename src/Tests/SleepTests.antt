-- ===== src/Tests/SleepTests.antt =====
-- The sleep of a worker and the destruction of its pool at concrete runs
use libcando.Base.{◌≡◌, refl, arith, []}
use libcando.Jpool.{unlock_force}
use libcando.Jpool.Threads
use libcando.Jpool.Threads.{fresh, poll, loop}
use libcando.Jpool.Sleep.{System, Step, Reach, awake, asleep, joining, forced}
use libcando.Jpool.Sleep.Shadow.{shadow, reach-shadow}
use libcando.Jpool.Sleep.Ends.{Ends, closing-Ends}
use libcando.Jpool.Sleep.Hangs.{tired, reach_tired, destroy_hangs}
use libcando.Futex.Condition.{spin_cnt}

-- The worker of a pool without jobs has spun all its rounds.
reach-shadow_example : Threads.Reach 4076 (shadow (tired (fresh 4076) [] []))
reach-shadow_example = reach-shadow reach_tired tt

destroy_hangs_example :
    (t : System) × Reach 4076 t
    × (t.owner ≡ joining)
    × (t.place ≡ asleep unlock_force)
    × (t.added ≡ [])
    × (t.ran ≡ [])
    × ((u : System) → Step t u → u ≡ record t { place = awake spin_cnt poll })
destroy_hangs_example = destroy_hangs (fresh 4076) [] [] reach_tired refl

-- The forced unlock is stored while the worker sleeps.
abbrev stored : System
stored = record {
  queue = record (fresh 4076) { job_free = unlock_force };
  owner = forced;
  place = asleep 0;
  added = [];
  ran = [];
}

closing-Ends_example : Ends 14 stored
closing-Ends_example = closing-Ends stored tt refl (omega arith)
