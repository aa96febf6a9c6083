-- ===== src/Tests/TimelyTests.antt =====
-- A job that is added, run and waited for
use libcando.Base.{false, ◌≡◌, refl, arith, List, [], ◌∷◌, ◌++◌}
use libcando.Jpool.{Job, is_full}
use libcando.Jpool.Threads.{
  out, reset1, waiting, returning, adding, System, init, add, not_full, take_slot, store_func,
  store_arg, count, wait, fresh,
}
use libcando.Jpool.Races.{not_full-fresh}
use libcando.Jpool.Timely.{Timely, begin, called}
use libcando.Jpool.Timely.Ledger.{next_hand}
use libcando.Jpool.Timely.Complete.{timely_complete}
use libcando.Jpool.Timely.Drain.{wait_ends}

abbrev job : Job
job = record { func = 7; arg = 9 }

not_full-new : is_full (fresh 4076) ≡ false
not_full-new = not_full-fresh 4076 (omega arith) (omega arith)

-- The caller waits behind the job.
abbrev handed_over : (s : System) × Timely (init 4076) s × (s.caller ≡ waiting returning)
handed_over =
    let a = called begin (add job (omega arith) (omega arith)) in
    let b = called (called a (not_full not_full-new)) take_slot in
    let c = called (called (called b store_func) store_arg) count in (_, called c wait, refl)

timely_complete_example :
    ((rest : List Job) × (handed_over.0.added ≡ handed_over.0.ran ++ rest))
    × (handed_over.0.caller ≡ reset1 returning → handed_over.0.added ≡ handed_over.0.ran)
    × ((j : Job)
        → handed_over.0.caller ≡ reset1 (adding j)
        → handed_over.0.added ≡ handed_over.0.ran ++ (j ∷ []))
    × (handed_over.0.caller ≡ out
        → handed_over.0.queue.job_count ≡ 0
        → handed_over.0.added ≡ handed_over.0.ran)
timely_complete_example = timely_complete (omega arith) (omega arith) handed_over.1

wait_ends_example :
    (t : System) × Timely handed_over.0 t
    × (t.caller ≡ reset1 returning)
    × (t.added ≡ handed_over.0.added)
    × (t.added ≡ t.ran ++ next_hand returning)
wait_ends_example =
    wait_ends (omega arith) (omega arith) returning handed_over.0 handed_over.1 handed_over.2
