-- ===== src/Tests/ChannelTests.antt =====
-- A message on its way through an entry
use libcando.Base.{
  some, ok, ◌==◌, if◌then◌else◌, ◌+◌, ◌*◌, ◌<◌, ◌≤◌, ℕ, ◌≡◌, refl, arith, true, false, [], ◌∷◌,
  length,
}
use libcando.Shm.Channel.{
  Use, System, Reach, start, later, moves, write, read, lock_wr, store, end_store, unlock_rd,
}
use libcando.Shm.Channel.Inside.{is_inside, Behind}
use libcando.Shm.Channel.Fifo.{reach-Fifo}
use libcando.Shm.Channel.Delivery.{Delivered, reach-Delivered}
use libcando.Base.Memory.{Mem, load32}
use libcando.Shm.{Proc, Segment}
use libcando.Shm.Transfer.{done, send, receive}
use libcando.Shm.Channel.{init}
use libcando.Shm.Channel.Stores.{Alike}
use libcando.Shm.Channel.Whole.{Passed, write_read-Passed}
use libcando.Shm.Transfer.Calls.{rounds}

abbrev words : Use
words = record { size = 4; room = 40; attaches = false; interrupts = false }

four_fit : 4 * rounds 4 ≤ 40
unfolding rounds
four_fit = omega arith

six_fit : 4 * rounds 6 ≤ 40
unfolding rounds
six_fit = omega arith

one_int : length {A = ℕ} (5 ∷ []) ≡ rounds 4
unfolding rounds
one_int = refl

another_int : length {A = ℕ} (6 ∷ []) ≡ rounds 4
unfolding rounds
another_int = refl

first : 4 * 0 < 4
first = omega arith

last : 4 ≤ 4 * (0 + 1)
last = omega arith

-- Process 2 has written a message of one int.
abbrev written : (s : System) × Reach words (λ off. 0) s
written =
    let a = later start (moves 2 (write (5 ∷ []) one_int)) in
    let b = later (later a (moves 2 (lock_wr refl))) (moves 2 (store first (omega arith))) in
    let c = later b (moves 2 (end_store last)) in (_, later c (moves 2 unlock_rd))

reach-Fifo_example :
    Behind words written.0.written written.0.taken
    × ((i j : ℕ) → is_inside (written.0.pc i) ≡ true → is_inside (written.0.pc j) ≡ true → i ≡ j)
reach-Fifo_example = reach-Fifo words written.1

-- Process 3 waits to write another int, and process 7 to read.
abbrev waiting : (s : System) × Reach words (λ off. 0) s
waiting =
    let a = later written.1 (moves 3 (write (6 ∷ []) another_int)) in (_, later a (moves 7 read))

reach-Delivered_example : Delivered words (6 ∷ []) waiting.0
reach-Delivered_example = reach-Delivered 3 7 (6 ∷ []) four_fit refl refl waiting.1 refl refl

abbrev six : Use
six = record { size = 6; room = 40; attaches = false; interrupts = false }

-- An entry whose segment is empty
abbrev entry : Proc
entry = record { rd_fux = 4; wr_fux = 8; data_off = 20; data_sz = 40 }

abbrev segment : Segment
segment = record { words = λ i. if 4 == i then 1 else 0; bytes = λ _. 0 }

abbrev buffer : Mem
buffer i = if 3 == i then 200 else 7

load32_zero : (p : ℕ) → 0 ≡ load32 (λ _. 0) p
unfolding load32
load32_zero p = refl

segment-Alike : Alike entry segment (record { wr_fux = 0; rd_fux = 1; ints = λ _. 0 })
segment-Alike = record { wr_eq = refl; rd_eq = refl; ints = λ j. load32_zero (20 + 4 * j) }

write_read-Passed_example :
    (full after : Segment) × (got : Mem) × (send 60 (some entry) segment 0 6 buffer
      ≡ ok (done full buffer))
    × (receive 60 (some entry) full 0 6 (λ _. 0) ≡ ok (done after got))
    × Passed six (init (λ _. 0)) entry after buffer got
write_read-Passed_example =
    write_read-Passed six 60 (init (λ _. 0)) 2 7 entry segment 0 0 buffer (λ _. 0) six_fit refl refl
      refl segment-Alike (λ i. omega arith) (λ i. ground arith) refl (omega arith) (omega arith)
      (omega arith)
