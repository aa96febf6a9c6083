-- ===== src/Tests/ShmTests.antt =====
-- src/shm.c at concrete mappings
use libcando.Base.{
  ◌*◌, ◌≤◌, ℕ, ◌+◌, ◌<◌, ◌≡◌, refl, arith, true, false, some, [], ◌∷◌, ◌==◌, ok, if◌then◌else◌,
}
use libcando.Base.Memory.{Mem}
use libcando.Shm.{Proc, Shm, Segment, CreateInfo, Answers, create}
use libcando.Shm.Attach.{IsFine, Attached, create-Attached}
use libcando.Shm.Transfer.{DataInfo, write, read, done, waits}
use libcando.Shm.Transfer.Calls.{rounds, IsEntry}
use libcando.Shm.Transfer.RoundTrip.{write-read}

abbrev os : Answers
os = record { calloc = true; shm_open = true; ftruncate = true; mmap = true }

-- Two processes, named "/s"
abbrev info : CreateInfo
info = record { shm_file = 47 ∷ 115 ∷ []; shm_size = 100; proc_count = 2 }

abbrev empty : Segment
empty = record { words = λ _. 0; bytes = λ _. 0 }

info-IsFine : IsFine os false info
info-IsFine = record {
  memory = refl;
  opens = refl;
  grows = refl;
  maps = refl;
  some_process = omega arith;
  few = omega arith;
  some_size = omega arith;
  absolute = refl;
  short = omega arith;
}

create-Attached_example :
    (shm : Shm) × (ready : Segment) × (create os false (some info) empty
      ≡ ok (some shm, ready, false))
    × Attached info empty shm ready
create-Attached_example =
    create-Attached os false info empty info-IsFine (omega arith) (omega arith) (omega arith)

-- Both processes are attached.
abbrev full : Segment
full = record { words = λ i. if 0 == i then 2 else 1; bytes = λ _. 0 }

abbrev tiny : CreateInfo
tiny = record { shm_file = 47 ∷ 115 ∷ []; shm_size = 8; proc_count = 2 }

tiny-IsFine : IsFine os false tiny
tiny-IsFine = record {
  memory = refl;
  opens = refl;
  grows = refl;
  maps = refl;
  some_process = omega arith;
  few = omega arith;
  some_size = omega arith;
  absolute = refl;
  short = omega arith;
}

abbrev first : DataInfo
first = record { size = 6; proc_index = 0 }

-- One process is attached, and a message waits in segment 0.
abbrev pending : Segment
pending = record { words = λ i. if 0 == i then 1 else if 8 == i then 1 else 0; bytes = λ _. 7 }

abbrev third : DataInfo
third = record { size = 6; proc_index = 2 }

-- The context of a process, and the shared memory when its segment is empty
abbrev proc : Proc
proc = record { rd_fux = 4; wr_fux = 8; data_off = 20; data_sz = 40 }

abbrev shm_of_two : Shm
shm_of_two = record {
  shm_file = 47 ∷ 115 ∷ [];
  data_sz = 100;
  procs = some proc ∷ some (record { rd_fux = 12; wr_fux = 16; data_off = 60; data_sz = 40 }) ∷ [];
}

abbrev idle : Segment
idle = record { words = λ i. if 0 == i then 1 else if 4 == i then 1 else 0; bytes = λ _. 0 }

idle-IsEntry : IsEntry shm_of_two idle 0 proc
idle-IsEntry = record {
  admitted = omega arith;
  entry = refl;
  rd_behind = omega arith;
  wr_behind = omega arith;
}

six_fit : 20 + 4 * rounds 6 ≤ 100
unfolding rounds
six_fit = omega arith

write-read_example :
    (after_write after : Segment) × (got : Mem) × (write shm_of_two idle 0 first (λ j. j + 1)
      ≡ ok (done after_write (λ j. j + 1)))
    × ((next : Mem) → write shm_of_two after_write 0 first next ≡ ok waits)
    × (read shm_of_two after_write 0 first (λ _. 0) ≡ ok (done after got))
    × ((j : ℕ) → j < 6 → got j ≡ j + 1)
    × ((next : Mem) → read shm_of_two after 0 first next ≡ ok waits)
    × (after.words 8 ≡ 0)
write-read_example =
    write-read shm_of_two idle proc first 0 (λ j. j + 1) (λ _. 0) idle-IsEntry six_fit refl
      (λ e. absurd (omega arith))

abbrev long : DataInfo
long = record { size = 48; proc_index = 0 }
