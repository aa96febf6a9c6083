-- ===== src/Shm/Transfer/Calls.antt =====
-- `udo_shm_data_write` and `udo_shm_data_read` where nobody has to be waited for
use libcando.Base.{
  ℕ, ◌+◌, ◌/◌, ◌*◌, false, ◌<◌, ◌≤◌, ◌≡◌, refl, ◌≢◌, arith, false, none, some, get_or, ◌==◌, ltb,
  ok,
}
use libcando.Base.Memory.{Mem}
use libcando.Futex.{locked, unlocked}
use libcando.Shm.{Proc, Shm, Segment, eintr, put, check_proc_index}
use libcando.Shm.Transfer.{
  write_loop, read_loop, DataInfo, waits, done, runs_off, send, receive, write, read,
}
use libcando.Shm.Transfer.Copies.{Rounds}

-- The caller's index names the segment `p`, whose two futexes stand behind the counter.
pub record IsEntry (shm : Shm) (seg : Segment) (index : ℕ) (p : Proc) : Type 0 where
  pub admitted : index ≤ seg.words 0
  pub entry : get_or shm.procs index none ≡ some p
  pub rd_behind : 0 < p.rd_fux
  pub wr_behind : p.rd_fux < p.wr_fux

-- The rounds that both loops make
unfoldable pub rounds : ℕ → ℕ
rounds size = (size + 3) / 4

pub rounds-Rounds : (size : ℕ) → Rounds (rounds size) size 0 size
unfolding rounds
rounds-Rounds size = (omega arith, omega arith, omega arith)

pub send_free :
    (limit : ℕ) (p : Proc) (seg : Segment) (errno size : ℕ) (buffer : Mem)
    → p.data_off + 4 * rounds size ≤ limit
    → seg.words p.wr_fux ≡ unlocked
    → errno ≢ eintr
    → send limit (some p) seg errno size buffer
      ≡ ok (
          done
            (record {
              words = put (put seg.words p.wr_fux locked) p.rd_fux unlocked;
              bytes = write_loop size 0 size p.data_off seg.bytes buffer;
            })
            buffer)
unfolding send rounds
send_free limit p seg errno size buffer fits h n =
    let f : (errno == eintr) ≡ false = ground arith in
    let g : runs_off p limit size ≡ false = ground (arith, fits) in rw (send, h, f, g) refl

pub send_taken :
    (limit : ℕ) (p : Proc) (seg : Segment) (errno size : ℕ) (buffer : Mem)
    → seg.words p.wr_fux ≡ locked
    → send limit (some p) seg errno size buffer ≡ ok waits
unfolding send
send_taken limit p seg errno size buffer h = rw (send, h) refl

pub receive_free :
    (limit : ℕ) (p : Proc) (seg : Segment) (errno size : ℕ) (buffer : Mem)
    → p.data_off + 4 * rounds size ≤ limit
    → seg.words p.rd_fux ≡ unlocked
    → errno ≢ eintr
    → receive limit (some p) seg errno size buffer
      ≡ ok (
          done
            (record {
              words = put (put seg.words p.rd_fux locked) p.wr_fux unlocked;
              bytes = (read_loop size 0 size p.data_off seg.bytes buffer).0;
            })
            ((read_loop size 0 size p.data_off seg.bytes buffer).1))
unfolding receive rounds
receive_free limit p seg errno size buffer fits h n =
    let f : (errno == eintr) ≡ false = ground arith in
    let g : runs_off p limit size ≡ false = ground (arith, fits) in rw (receive, h, f, g) refl

pub receive_taken :
    (limit : ℕ) (p : Proc) (seg : Segment) (errno size : ℕ) (buffer : Mem)
    → seg.words p.rd_fux ≡ locked
    → receive limit (some p) seg errno size buffer ≡ ok waits
unfolding receive
receive_taken limit p seg errno size buffer h = rw (receive, h) refl

pub write-send :
    {shm : Shm} {seg : Segment} {p : Proc} (info : DataInfo) (errno : ℕ) (buffer : Mem)
    → IsEntry shm seg info.proc_index p
    → write shm seg errno info buffer ≡ send shm.data_sz (some p) seg errno info.size buffer
unfolding write check_proc_index
write-send {shm} {seg} {p} info errno buffer e =
    let f : ltb (seg.words 0) info.proc_index ≡ false = ground (arith, e.admitted) in
    rw (f, e.entry) refl

pub read-receive :
    {shm : Shm} {seg : Segment} {p : Proc} (info : DataInfo) (errno : ℕ) (buffer : Mem)
    → IsEntry shm seg info.proc_index p
    → read shm seg errno info buffer ≡ receive shm.data_sz (some p) seg errno info.size buffer
unfolding read check_proc_index
read-receive {shm} {seg} {p} info errno buffer e =
    let f : ltb (seg.words 0) info.proc_index ≡ false = ground (arith, e.admitted) in
    rw (f, e.entry) refl
