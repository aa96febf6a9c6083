-- ===== src/Shm/Refusals.antt =====
-- What `udo_shm_create` accepts, or refuses too late
use libcando.Base.{
  Bool, ℕ, ◌+◌, ◌-◌, ◌*◌, ◌^◌, ◌<◌, ◌≤◌, ◌≡◌, refl, ◌∙◌, ◌≢◌, arith, true, false, none, some,
  get_or, get_or-past, ◌==◌, ltb, leb, ok, fault, add32, sub32, sub64,
}
use native.Mathlib.Nat.{le-div_iff_mul-le, mul-le-mul}
use libcando.Base.Memory.{Mem}
use libcando.Futex.{locked, unlocked}
use libcando.Shm.{
  Proc, Shm, Segment, CreateInfo, Answers, put, place, front_size, proc_data_sz, attach, try_create,
  finish_create, destroy, create, proc_max, check_proc_index, eintr,
}
use libcando.Shm.Segments.{slot, place-first, length-place, place-before}
use libcando.Shm.Attach.{
  IsFine, context, joined, is_refused-IsFine, create-attached, create-Attached,
}
use libcando.Shm.Transfer.{DataInfo, waits, write, read, receive}
use libcando.Shm.Transfer.Calls.{IsEntry, send_taken, receive_taken, write-send, read-receive}

-- An attempt to attach more processes than there are segments is refused, but counts one process
-- less, because `udo_shm_create` destroys the context that it never counted. The last such count
-- unlinks the file, although processes are attached to it.
pub create-crowded :
    (os : Answers) (own : Bool) (i : CreateInfo) (seg : Segment)
    → IsFine os own i
    → i.proc_count ≤ seg.words 0
    → seg.words 0 < 2 ^ 32
    → create os own (some i) seg
      ≡ ok (none, record seg { words = put seg.words 0 (seg.words 0 - 1) }, seg.words 0 == 1)
unfolding create try_create attach finish_create destroy
create-crowded os own i seg f h small =
    let full : leb i.proc_count (seg.words 0) ≡ true = ground arith in
    let less : sub32 (seg.words 0) 1 ≡ seg.words 0 - 1 = omega (arith, f.some_process) in
    let last : (seg.words 0 - 1 == 0) ≡ (seg.words 0 == 1) = ground (arith, f.some_process) in
    rw (f.memory, is_refused-IsFine os own i f, f.maps, full, less, last) refl

size_beyond :
    (shm_size n : ℕ)
    → 0 < n
    → n < proc_max
    → shm_size < front_size n
    → shm_size < proc_data_sz shm_size n
unfolding proc_data_sz
size_beyond shm_size n positive few short =
    let product : (shm_size + 1) * n ≤ 140 * 16 =
      mul-le-mul {n₂ = 140} {m₂ = 16} (omega arith) (omega arith) in
    let whole : (shm_size + 1) * n ≤ sub64 shm_size (front_size n) = omega arith in
    omega (arith, (le-div_iff_mul-le {x = shm_size + 1} positive).1 whole)

-- A size that does not hold the counter and the futexes is not refused: the size of a segment
-- wraps, so that each process is given more bytes than the whole mapping has.
pub create-beyond :
    (os : Answers) (own : Bool) (i : CreateInfo) (seg : Segment)
    → IsFine os own i
    → seg.words 0 < i.proc_count
    → i.shm_size < front_size i.proc_count
    → (shm : Shm) × (ready : Segment) × (p : Proc) × (create os own (some i) seg
        ≡ ok (some shm, ready, false))
      × (get_or shm.procs 0 none ≡ some p)
      × (shm.data_sz < p.data_sz)
create-beyond os own i seg f h short =
    let size = proc_data_sz i.shm_size i.proc_count in
    (
      context i seg,
      joined i seg,
      record { rd_fux = 4; wr_fux = 4 + 4; data_off = front_size i.proc_count; data_sz = size },
      create-attached os own i seg f h,
      place-first i.proc_count 4 (front_size i.proc_count) size
          (put seg.words 0 (add32 (seg.words 0) 1)) f.some_process,
      size_beyond i.shm_size i.proc_count f.some_process f.few short,
    )

-- A process that attaches while a message waits to be read, so that the segment's read futex is
-- free and its write futex taken, locks the read futex too: a read and a write both wait.
pub create-loses_message :
    (os : Answers) (own : Bool) (i : CreateInfo) (seg : Segment) (info : DataInfo) (errno : ℕ)
    (buffer : Mem)
    → IsFine os own i
    → seg.words 0 < i.proc_count
    → front_size i.proc_count ≤ i.shm_size
    → i.shm_size < 2 ^ 64
    → info.proc_index ≤ seg.words 0
    → seg.words (4 + 8 * info.proc_index) ≡ unlocked
    → seg.words (4 + 8 * info.proc_index + 4) ≡ locked
    → (shm : Shm) × (ready : Segment) × (create os own (some i) seg ≡ ok (some shm, ready, false))
      × (read shm ready errno info buffer ≡ ok waits)
      × (write shm ready errno info buffer ≡ ok waits)
create-loses_message os own i seg info errno buffer f h room small index rd wr =
    let (shm, ready, made, a) = create-Attached os own i seg f h room small in
    let inside_count : info.proc_index < i.proc_count = omega arith in
    let p =
      slot 4 (front_size i.proc_count) (proc_data_sz i.shm_size i.proc_count) info.proc_index in
    let e : IsEntry shm ready info.proc_index p = record {
      admitted = omega (arith, a.counted);
      entry = a.entry info.proc_index inside_count;
      rd_behind = omega arith;
      wr_behind = omega arith;
    } in
    let reading = a.reading info.proc_index inside_count in
    (
      shm,
      ready,
      made,
      read-receive info errno buffer e
          ∙ receive_taken shm.data_sz p ready errno info.size buffer (reading ∙ rw rd refl),
      write-send info errno buffer e
          ∙ send_taken shm.data_sz p ready errno info.size buffer
              (a.writing info.proc_index inside_count ∙ wr),
    )

-- When every segment's process is attached, the index behind the last segment passes the check of
-- `p_check_proc_index`: a read from there goes through NULL.
pub read-past_last :
    (os : Answers) (own : Bool) (i : CreateInfo) (seg : Segment) (info : DataInfo) (errno : ℕ)
    (buffer : Mem)
    → IsFine os own i
    → seg.words 0 + 1 ≡ i.proc_count
    → info.proc_index ≡ i.proc_count
    → 0 < info.size
    → errno ≢ eintr
    → (shm : Shm) × (ready : Segment) × (create os own (some i) seg ≡ ok (some shm, ready, false))
      × (read shm ready errno info buffer ≡ fault)
unfolding read receive check_proc_index
read-past_last os own i seg info errno buffer f last index some_bytes n =
    let size = proc_data_sz i.shm_size i.proc_count in
    let counted = put seg.words 0 (add32 (seg.words 0) 1) in
    let placed = place i.proc_count 4 (front_size i.proc_count) size counted in
    let count : placed.1 0 ≡ seg.words 0 + 1 =
      place-before i.proc_count 4 (front_size i.proc_count) size counted 0 (omega arith)
      ∙ omega (arith, f.few) in
    let passes : ltb (placed.1 0) info.proc_index ≡ false = ground arith in
    let no_entry : get_or placed.0 info.proc_index none ≡ none =
      get_or-past placed.0 info.proc_index none
        (omega (arith, length-place i.proc_count 4 (front_size i.proc_count) size counted)) in
    let other : (errno == eintr) ≡ false = ground arith in
    let more : (info.size == 0) ≡ false = ground arith in
    (
      context i seg,
      joined i seg,
      create-attached os own i seg f (omega arith),
      rw (passes, no_entry, other, more) refl,
    )
