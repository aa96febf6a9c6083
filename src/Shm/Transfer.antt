-- ===== src/Shm/Transfer.antt =====
-- `udo_shm_data_write` and `udo_shm_data_read`: a message of one process, an `int` at a time
pub mod Copies
pub mod Bytes
pub mod Calls
pub mod RoundTrip
use libcando.Base.{
  ℕ, zero, suc, ◌+◌, ◌-◌, ◌*◌, ◌^◌, Bool, true, false, not, ◌||◌, ◌&&◌, ◌/◌, Option, none, some,
  List, [], ◌∷◌, get_or, ◌==◌, ltb, leb, if◌then◌else◌, Outcome, ok, fault, ◌>>=◌,
}
use libcando.Base.Memory.{Mem, memcpy, memset}
use libcando.Futex.{locked, unlocked, unlock_force}
use libcando.Shm.{Proc, Shm, Segment, eintr, put, check_proc_index}

-- The loop of `udo_shm_data_write` from `s` on, with fuel
pub write_loop : (fuel s size : ℕ) → (to : ℕ) → Mem → Mem → Mem
write_loop zero s size to bytes buffer = bytes
write_loop (suc fuel) s size to bytes buffer =
    let rest = write_loop fuel (s + 4) size to (memcpy bytes (to + s) buffer s 4) buffer in
    if ltb s size then rest else bytes

-- The loop of `udo_shm_data_read` from `s` on, with fuel: the shared bytes and the reader's.
-- `__atomic_clear` clears one byte.
pub read_loop : (fuel s size : ℕ) → (from : ℕ) → Mem → Mem → Mem × Mem
read_loop zero s size from bytes buffer = (bytes, buffer)
read_loop (suc fuel) s size from bytes buffer =
    let rest =
      read_loop fuel (s + 4) size from (memset bytes (from + s) 0 1)
        (memcpy buffer s bytes (from + s) 4) in
    if ltb s size then rest else (bytes, buffer)

-- `struct udo_shm_data_info`, less its data, which is not NULL
pub record DataInfo : Type 0 where
  pub size : ℕ
  pub proc_index : ℕ

-- How `udo_futex_lock` ends as far as no other process acts
pub data Locking : Type 0 where
  free : Locking
  forced : Locking
  taken : Locking

abbrev pub lock : (word : ℕ) → Locking
lock word = if word == unlocked then free else if word == unlock_force then forced else taken

-- How a transfer ends: refused, with `-EINTR`, asleep on its futex, or done with 0. It leaves the
-- shared memory, the caller's data and errno.
pub data Transfer : Type 0 where
  refused : Transfer
  interrupted : (errno : ℕ) → Segment → Transfer
  waits : Transfer
  done : Segment → (buffer : Mem) → Transfer

-- Whether the loops reach past the mapping, which has `limit` bytes: they move whole `int`s.
abbrev pub runs_off : Proc → (limit size : ℕ) → Bool
runs_off p limit size = not (size == 0) && ltb limit (p.data_off + 4 * ((size + 3) / 4))

-- `udo_shm_data_write` behind its checks, with a mapping of `limit` bytes; without an entry the futex and the data are NULL.
pub send : (limit : ℕ) → Option Proc → Segment → (errno size : ℕ) → Mem → Outcome Transfer
unfolding write_loop
send limit none seg errno size buffer =
    if errno == eintr
    then ok (interrupted errno seg)
    else if size == 0
    then ok (done seg buffer)
    else fault
send limit (some p) seg errno size buffer =
    let held = put seg.words p.wr_fux locked in
    let sent = write_loop size 0 size p.data_off seg.bytes buffer in
    elim (lock (seg.words p.wr_fux)) [
      | taken ↦ ok waits
      | forced ↦ ok (interrupted eintr seg)
      | free ↦
          if errno == eintr
          then ok (interrupted errno (record seg { words = held }))
          else if runs_off p limit size
          then fault
          else ok (done (record { words = put held p.rd_fux unlocked; bytes = sent }) buffer)
    ]

-- `udo_shm_data_read` behind its checks
unfoldable pub receive :
    (limit : ℕ) → Option Proc → Segment → (errno size : ℕ) → Mem → Outcome Transfer
unfolding read_loop
receive limit none seg errno size buffer =
    if errno == eintr
    then ok (interrupted errno seg)
    else if size == 0
    then ok (done seg buffer)
    else fault
receive limit (some p) seg errno size buffer =
    let held = put seg.words p.rd_fux locked in
    let got = read_loop size 0 size p.data_off seg.bytes buffer in
    elim (lock (seg.words p.rd_fux)) [
      | taken ↦ ok waits
      | forced ↦ ok (interrupted eintr seg)
      | free ↦
          if errno == eintr
          then ok (interrupted errno (record seg { words = held }))
          else if runs_off p limit size
          then fault
          else ok (done (record { words = put held p.wr_fux unlocked; bytes = got.0 }) got.1)
    ]

-- `udo_shm_data_write` of a context and data that are not NULL, with the errno that it is called
-- with
pub write : Shm → Segment → (errno : ℕ) → DataInfo → Mem → Outcome Transfer
unfolding send check_proc_index
write shm seg errno info buffer =
    if check_proc_index seg info.proc_index
    then ok refused
    else send shm.data_sz (get_or shm.procs info.proc_index none) seg errno info.size buffer

-- `udo_shm_data_read`, likewise
unfoldable pub read : Shm → Segment → (errno : ℕ) → DataInfo → Mem → Outcome Transfer
unfolding receive check_proc_index
read shm seg errno info buffer =
    if check_proc_index seg info.proc_index
    then ok refused
    else receive shm.data_sz (get_or shm.procs info.proc_index none) seg errno info.size buffer
