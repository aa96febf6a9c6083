-- ===== src/Shm/Attach.antt =====
-- `udo_shm_create` and `udo_shm_destroy`: the counter of the processes that are attached
use libcando.Base.{
  Bool, ◌||◌, ℕ, ◌+◌, ◌-◌, ◌*◌, ◌^◌, ◌<◌, ◌≤◌, ◌≡◌, refl, ◌∙◌, arith, true, false, none, some,
  length, get_or, ◌==◌, leb, if◌then◌else◌, ok, add32, sub64,
}
use native.Mathlib.Nat.{div-mul-le_self}
use libcando.Futex.{locked, unlocked}
use libcando.Shm.{
  Shm, Segment, CreateInfo, Answers, put, place, front_size, proc_data_sz, is_refused, attach,
  try_create, finish_create, create, proc_max, file_name_max,
}
use libcando.Shm.Segments.{slot, place-slot, length-place, place-before, place-words}

-- There is memory for the context, the system maps the file, and the caller's data passes the checks.
pub record IsFine (os : Answers) (own : Bool) (i : CreateInfo) : Type 0 where
  pub memory : (own || os.calloc) ≡ true
  pub opens : os.shm_open ≡ true
  pub grows : os.ftruncate ≡ true
  pub maps : os.mmap ≡ true
  pub some_process : 0 < i.proc_count
  pub few : i.proc_count < proc_max
  pub some_size : 0 < i.shm_size
  pub absolute : get_or i.shm_file 0 0 ≡ 47
  pub short : length i.shm_file < file_name_max

-- The context that `p_shm_create` fills in, and the shared memory it leaves
abbrev pub context : CreateInfo → Segment → Shm
context i seg = record {
  shm_file = i.shm_file;
  data_sz = i.shm_size;
  procs =
      (place i.proc_count 4 (front_size i.proc_count) (proc_data_sz i.shm_size i.proc_count)
        (put seg.words 0 (add32 (seg.words 0) 1))).0;
}

abbrev pub joined : CreateInfo → Segment → Segment
joined i seg = record seg {
  words =
      (place i.proc_count 4 (front_size i.proc_count) (proc_data_sz i.shm_size i.proc_count)
        (put seg.words 0 (add32 (seg.words 0) 1))).1;
}

pub is_refused-IsFine :
    (os : Answers) (own : Bool) (i : CreateInfo) → IsFine os own i → is_refused os i ≡ false
unfolding is_refused
is_refused-IsFine os own i f =
    rw (f.opens, f.grows) (ground (arith, f.some_process, f.few, f.some_size, f.absolute, f.short))

pub create-attached :
    (os : Answers) (own : Bool) (i : CreateInfo) (seg : Segment)
    → IsFine os own i
    → seg.words 0 < i.proc_count
    → create os own (some i) seg ≡ ok (some (context i seg), joined i seg, false)
unfolding create try_create attach finish_create
create-attached os own i seg f h =
    let fits : leb i.proc_count (seg.words 0) ≡ false = ground arith in
    rw (f.memory, is_refused-IsFine os own i f, f.maps, fits) refl

-- A context that is attached to a mapping that has room for the futexes
pub record Attached (i : CreateInfo) (seg : Segment) (shm : Shm) (ready : Segment) : Type 0 where
  pub counted : ready.words 0 ≡ seg.words 0 + 1
  pub untouched : ready.bytes ≡ seg.bytes
  pub all : length shm.procs ≡ i.proc_count
  pub entry :
      (p : ℕ)
      → p < i.proc_count
      → get_or shm.procs p none
        ≡ some (slot 4 (front_size i.proc_count) (proc_data_sz i.shm_size i.proc_count) p)
  pub inside :
      front_size i.proc_count + proc_data_sz i.shm_size i.proc_count * i.proc_count ≤ i.shm_size
  pub reading :
      (p : ℕ)
      → p < i.proc_count
      → ready.words (4 + 8 * p)
        ≡ (if seg.words (4 + 8 * p) == unlocked then locked else seg.words (4 + 8 * p))
  pub writing : (p : ℕ) → p < i.proc_count → ready.words (4 + 8 * p + 4) ≡ seg.words (4 + 8 * p + 4)

size_inside :
    (shm_size n : ℕ)
    → 0 < n
    → front_size n ≤ shm_size
    → shm_size < 2 ^ 64
    → front_size n + proc_data_sz shm_size n * n ≤ shm_size
unfolding proc_data_sz
size_inside shm_size n positive h small =
    let room : sub64 shm_size (front_size n) ≡ shm_size - front_size n = omega arith in
    rw room (omega (arith, div-mul-le_self (shm_size - front_size n) n))

-- `udo_shm_create` of good data, with memory of the caller that is zero, or a calloc(3) that
-- succeeds, a system that opens, grows and maps the file, a process less attached than there are
-- segments, and a size that holds the counter and the futexes: it gives a context and counts the
-- process. Entry `p` is the
-- pair of futexes and the segment number `p`: the segments follow the front one behind the other,
-- and end inside the mapping. Each read futex that was free is locked; the write futexes and all
-- bytes stay.
pub create-Attached :
    (os : Answers) (own : Bool) (i : CreateInfo) (seg : Segment)
    → IsFine os own i
    → seg.words 0 < i.proc_count
    → front_size i.proc_count ≤ i.shm_size
    → i.shm_size < 2 ^ 64
    → (shm : Shm) × (ready : Segment) × (create os own (some i) seg ≡ ok (some shm, ready, false))
      × Attached i seg shm ready
create-Attached os own i seg f h room small =
    let size = proc_data_sz i.shm_size i.proc_count in
    let counted = put seg.words 0 (add32 (seg.words 0) 1) in
    let inside = size_inside i.shm_size i.proc_count f.some_process room small in
    (
      context i seg,
      joined i seg,
      create-attached os own i seg f h,
      record {
        counted =
            place-before i.proc_count 4 (front_size i.proc_count) size counted 0 (omega arith)
            ∙ omega (arith, f.few);
        untouched = refl;
        all = length-place i.proc_count 4 (front_size i.proc_count) size counted;
        entry = λ p a.
            place-slot i.proc_count 4 (front_size i.proc_count) size counted p a
              (omega (arith, inside));
        inside = inside;
        reading = λ p a.
            (place-words i.proc_count 4 (front_size i.proc_count) size counted p a).0
            ∙ ground arith;
        writing = λ p a.
            (place-words i.proc_count 4 (front_size i.proc_count) size counted p a).1
            ∙ ground arith;
      },
    )
