-- ===== src/Shm/Transfer/RoundTrip.antt =====
-- A message from `udo_shm_data_write` to `udo_shm_data_read`
use libcando.Base.{
  ℕ, ◌+◌, ◌*◌, ◌<◌, ◌≡◌, refl, ◌∙◌, ◌≢◌, arith, ◌==◌, if◌then◌else◌, ok, fault, false, true, ◌≤◌,
}
use libcando.Base.Memory.{Mem}
use libcando.Futex.{locked, unlocked}
use libcando.Shm.{Proc, Shm, Segment, eintr, put}
use libcando.Shm.Transfer.{
  write_loop, read_loop, DataInfo, waits, interrupted, done, runs_off, send, write, read,
}
use libcando.Shm.Transfer.Calls.{
  IsEntry, rounds, rounds-Rounds, send_free, send_taken, receive_free, receive_taken, write-send,
  read-receive,
}
use libcando.Shm.Transfer.Copies.{write_loop-in, read_loop-in, read_loop-left}

-- The shared memory after a write and after a read
sent : Proc → Segment → (size : ℕ) → Mem → Segment
sent p seg size buffer = record {
  words = put (put seg.words p.wr_fux locked) p.rd_fux unlocked;
  bytes = write_loop size 0 size p.data_off seg.bytes buffer;
}

taken_out : Proc → Segment → (size : ℕ) → Mem → Segment
taken_out p seg size buffer = record {
  words = put (put seg.words p.rd_fux locked) p.wr_fux unlocked;
  bytes = (read_loop size 0 size p.data_off seg.bytes buffer).0;
}

sent-IsEntry :
    {shm : Shm} {seg : Segment} {index : ℕ} {p : Proc} (size : ℕ) (buffer : Mem)
    → IsEntry shm seg index p
    → IsEntry shm (sent p seg size buffer) index p
unfolding sent
sent-IsEntry {shm} {seg} {index} {p} size buffer e = record {
  admitted = ground (arith, e.admitted, e.rd_behind, e.wr_behind);
  entry = e.entry;
  rd_behind = e.rd_behind;
  wr_behind = e.wr_behind;
}

taken_out-IsEntry :
    {shm : Shm} {seg : Segment} {index : ℕ} {p : Proc} (size : ℕ) (buffer : Mem)
    → IsEntry shm seg index p
    → IsEntry shm (taken_out p seg size buffer) index p
unfolding taken_out
taken_out-IsEntry {shm} {seg} {index} {p} size buffer e = record {
  admitted = ground (arith, e.admitted, e.rd_behind, e.wr_behind);
  entry = e.entry;
  rd_behind = e.rd_behind;
  wr_behind = e.wr_behind;
}

-- A process whose write futex is free, and whose errno is not EINTR, passes a message on that, in
-- whole `int`s, ends inside the mapping: the write returns 0, a second write waits until somebody reads, the read that follows returns 0 with
-- every byte of the message, and a second read waits, while the write futex is free again.
pub write-read :
    (shm : Shm) (seg : Segment) (p : Proc) (info : DataInfo) (errno : ℕ) (message buffer : Mem)
    → IsEntry shm seg info.proc_index p
    → p.data_off + 4 * rounds info.size ≤ shm.data_sz
    → seg.words p.wr_fux ≡ unlocked
    → errno ≢ eintr
    → (full after : Segment) × (got : Mem) × (write shm seg errno info message
        ≡ ok (done full message))
      × ((next : Mem) → write shm full errno info next ≡ ok waits)
      × (read shm full errno info buffer ≡ ok (done after got))
      × ((j : ℕ) → j < info.size → got j ≡ message j)
      × ((next : Mem) → read shm after errno info next ≡ ok waits)
      × (after.words p.wr_fux ≡ unlocked)
unfolding sent taken_out
write-read shm seg p info errno message buffer e fits free n =
    let full = sent p seg info.size message in
    let after = taken_out p full info.size buffer in
    let entered : IsEntry shm full info.proc_index p = sent-IsEntry info.size message e in
    let left : IsEntry shm after info.proc_index p = taken_out-IsEntry info.size buffer entered in
    let r = rounds-Rounds info.size in
    (
      full,
      after,
      (read_loop info.size 0 info.size p.data_off full.bytes buffer).1,
      write-send info errno message e
          ∙ send_free shm.data_sz p seg errno info.size message fits free n,
      λ next.
          write-send info errno next entered
          ∙ send_taken shm.data_sz p full errno info.size next (ground (arith, e.wr_behind)),
      read-receive info errno buffer entered
          ∙ receive_free shm.data_sz p full errno info.size buffer fits (ground arith) n,
      λ j h.
          read_loop-in (rounds info.size) info.size 0 info.size p.data_off full.bytes buffer j r
            (omega arith) (omega (arith, r.1))
          ∙ write_loop-in (rounds info.size) info.size 0 info.size p.data_off seg.bytes message j r
              (omega arith) (omega (arith, r.1)),
      λ next.
          read-receive info errno next left
          ∙ receive_taken shm.data_sz p after errno info.size next (ground (arith, e.wr_behind)),
      ground arith,
    )

-- A write of more bytes than the process's segment has, which ends inside the mapping, is not
-- refused: it puts the byte behind the segment, where the next process's segment starts.
pub write-overruns :
    (shm : Shm) (seg : Segment) (p : Proc) (info : DataInfo) (errno : ℕ) (message : Mem)
    → IsEntry shm seg info.proc_index p
    → p.data_off + 4 * rounds info.size ≤ shm.data_sz
    → seg.words p.wr_fux ≡ unlocked
    → errno ≢ eintr
    → p.data_sz < info.size
    → (full : Segment) × (write shm seg errno info message ≡ ok (done full message))
      × (full.bytes (p.data_off + p.data_sz) ≡ message p.data_sz)
unfolding sent
write-overruns shm seg p info errno message e fits free n big =
    let r = rounds-Rounds info.size in
    (
      sent p seg info.size message,
      write-send info errno message e
          ∙ send_free shm.data_sz p seg errno info.size message fits free n,
      write_loop-in (rounds info.size) info.size 0 info.size p.data_off seg.bytes message p.data_sz
          r (omega arith) (omega (arith, r.1)),
    )

-- A read clears the first byte of every `int` it has read, and leaves the other three in the shared
-- memory.
pub read-leaves :
    (shm : Shm) (seg : Segment) (p : Proc) (info : DataInfo) (errno : ℕ) (buffer : Mem)
    → IsEntry shm seg info.proc_index p
    → p.data_off + 4 * rounds info.size ≤ shm.data_sz
    → seg.words p.rd_fux ≡ unlocked
    → errno ≢ eintr
    → (after : Segment) × (got : Mem) × (read shm seg errno info buffer ≡ ok (done after got))
      × ((m t : ℕ)
          → 4 * m < info.size
          → t < 4
          → after.bytes (p.data_off + (4 * m + t))
            ≡ (if t == 0 then 0 else seg.bytes (p.data_off + (4 * m + t))))
unfolding taken_out
read-leaves shm seg p info errno buffer e fits free n =
    let r = rounds-Rounds info.size in
    (
      taken_out p seg info.size buffer,
      (read_loop info.size 0 info.size p.data_off seg.bytes buffer).1,
      read-receive info errno buffer e
          ∙ receive_free shm.data_sz p seg errno info.size buffer fits free n,
      λ m t h b.
          let z : 0 + 4 * m + t ≡ 4 * m + t = omega arith in
          rw⁻¹ z (
            read_loop-left (rounds info.size) info.size 0 info.size p.data_off seg.bytes buffer m t
              r (omega (arith, r.1)) b),
    )

-- A write that is called with an errno left at EINTR by an earlier call gets its lock and returns
-- -EINTR without writing; the futex stays locked, and every later write waits.
pub write-stale :
    (shm : Shm) (seg : Segment) (p : Proc) (info : DataInfo) (message : Mem)
    → IsEntry shm seg info.proc_index p
    → seg.words p.wr_fux ≡ unlocked
    → (held : Segment) × (write shm seg eintr info message ≡ ok (interrupted eintr held))
      × (held.bytes ≡ seg.bytes)
      × ((errno : ℕ) (next : Mem) → write shm held errno info next ≡ ok waits)
unfolding send
write-stale shm seg p info message e free =
    let held = record seg { words = put seg.words p.wr_fux locked } in
    let entered : IsEntry shm held info.proc_index p = record {
      admitted = ground (arith, e.admitted, e.rd_behind, e.wr_behind);
      entry = e.entry;
      rd_behind = e.rd_behind;
      wr_behind = e.wr_behind;
    } in
    (
      held,
      write-send info eintr message e ∙ rw (send, free) refl,
      refl,
      λ errno next.
          write-send info errno next entered
          ∙ send_taken shm.data_sz p held errno info.size next (ground arith),
    )

-- A write that takes its lock and reaches past the mapping faults.
pub write-faults :
    (shm : Shm) (seg : Segment) (p : Proc) (info : DataInfo) (errno : ℕ) (message : Mem)
    → IsEntry shm seg info.proc_index p
    → seg.words p.wr_fux ≡ unlocked
    → errno ≢ eintr
    → 0 < info.size
    → shm.data_sz < p.data_off + 4 * rounds info.size
    → write shm seg errno info message ≡ fault
unfolding send rounds
write-faults shm seg p info errno message e free n some_bytes past =
    let f : (errno == eintr) ≡ false = ground arith in
    let g : runs_off p shm.data_sz info.size ≡ true = ground (arith, past, some_bytes) in
    write-send info errno message e ∙ rw (send, free, f, g) refl
