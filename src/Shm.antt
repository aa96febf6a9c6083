-- ===== src/Shm.antt =====
-- src/shm.c: shared memory that processes pass messages through, one segment each.
pub mod Segments
pub mod Attach
pub mod Refusals
pub mod Transfer
pub mod Channel
use libcando.Base.{
  ℕ, zero, suc, ◌+◌, ◌-◌, ◌*◌, ◌/◌, ◌^◌, Bool, true, false, not, ◌||◌, Option, none, some, List, [],
  ◌∷◌, length, get_or, ◌==◌, ltb, leb, if◌then◌else◌, Outcome, ok, fault, ◌>>=◌, add32, sub32,
  add64, sub64,
}
use libcando.Base.Memory.{Mem, memcpy, memset}
use libcando.Futex.{locked, unlocked, unlock_force}

-- SHM_PROC_MAX, SHM_FILE_NAME_MAX and EINTR
abbrev pub proc_max : ℕ
proc_max = 2 ^ 4

abbrev pub file_name_max : ℕ
file_name_max = 2 ^ 5

abbrev pub eintr : ℕ
eintr = 4

-- `struct udo_shm_proc`: offsets into the mapping
pub record Proc : Type 0 where
  pub rd_fux : ℕ
  pub wr_fux : ℕ
  pub data_off : ℕ
  pub data_sz : ℕ

-- `struct udo_shm` with its data mapped; the entries of the array `procs` behind those that were
-- set are NULL.
pub record Shm : Type 0 where
  pub shm_file : List ℕ
  pub data_sz : ℕ
  pub procs : List (Option Proc)

-- The memory that the processes share: the words of its front, by their offset, and its bytes.
pub record Segment : Type 0 where
  pub words : ℕ → ℕ
  pub bytes : Mem

-- `struct udo_shm_create_info`; the name by its bytes before the zero
pub record CreateInfo : Type 0 where
  pub shm_file : List ℕ
  pub shm_size : ℕ
  pub proc_count : ℕ

-- What the system answers
pub record Answers : Type 0 where
  pub calloc : Bool
  pub shm_open : Bool
  pub ftruncate : Bool
  pub mmap : Bool

abbrev pub put : (ℕ → ℕ) → ℕ → ℕ → ℕ → ℕ
put m p v i = if p == i then v else m i

-- `__atomic_compare_exchange_n` of an unlocked word
abbrev pub exchange : (ℕ → ℕ) → ℕ → ℕ → ℕ → ℕ
exchange words p v = put words p (if words p == unlocked then v else words p)

-- The loop of `p_shm_create` over `n` more processes
pub place : (n fux_off data_off size : ℕ) → (ℕ → ℕ) → List (Option Proc) × (ℕ → ℕ)
place zero fux_off data_off size words = ([], words)
place (suc n) fux_off data_off size words =
    let ready = exchange (exchange words fux_off locked) (fux_off + 4) unlocked in
    let rest = place n (fux_off + 8) (add64 data_off size) size ready in
    let proc : Proc = record {
      rd_fux = fux_off;
      wr_fux = fux_off + 4;
      data_off = data_off;
      data_sz = size;
    } in
    (some proc ∷ rest.0, rest.1)

-- `data_off` before that loop, and `proc_data_sz`
abbrev pub front_size : ℕ → ℕ
front_size proc_count = 4 + 2 * 4 * proc_count

pub proc_data_sz : (shm_size proc_count : ℕ) → ℕ
proc_data_sz shm_size proc_count = sub64 shm_size (front_size proc_count) / proc_count

-- How `p_shm_create` ends: before the mapping, behind it, or well.
pub data Attempt : Type 0 where
  unmapped : Attempt
  crowded : Attempt
  attached : Shm → Segment → Attempt

-- `p_shm_create` from the mapping on; a failure of `mmap` is not seen, and the first access faults.
pub attach : Answers → CreateInfo → Segment → Outcome Attempt
unfolding place proc_data_sz
attach os i seg =
    let size = proc_data_sz i.shm_size i.proc_count in
    let counted = put seg.words 0 (add32 (seg.words 0) 1) in
    let placed = place i.proc_count 4 (front_size i.proc_count) size counted in
    if not os.mmap
    then fault
    else if leb i.proc_count (seg.words 0)
    then ok crowded
    else ok (
        attached (record { shm_file = i.shm_file; data_sz = i.shm_size; procs = placed.0 })
          (record seg { words = placed.1 }))

-- The checks of `p_shm_create` before the mapping
pub is_refused : Answers → CreateInfo → Bool
is_refused os i =
    i.proc_count == 0
    || leb proc_max i.proc_count
    || i.shm_size == 0
    || not (get_or i.shm_file 0 0 == 47)
    || leb file_name_max (length i.shm_file)
    || not os.shm_open
    || not os.ftruncate

-- `p_shm_create`
pub try_create : Answers → Option CreateInfo → Segment → Outcome Attempt
unfolding attach is_refused
try_create os none seg = ok unmapped
try_create os (some i) seg = if is_refused os i then ok unmapped else attach os i seg

-- `udo_shm_destroy` of a context with its data mapped: the shared memory, and whether the file is
-- unlinked
pub destroy : Segment → Segment × Bool
destroy seg =
    let value = sub32 (seg.words 0) 1 in (record seg { words = put seg.words 0 value }, value == 0)

-- The end of `udo_shm_create`: a context or NULL, the shared memory, and whether the file is unlinked
finish_create : Segment → Attempt → Outcome (Option Shm × Segment × Bool)
unfolding destroy
finish_create seg unmapped = ok (none, seg, false)
finish_create seg crowded = let gone = destroy seg in ok (none, gone.0, gone.1)
finish_create seg (attached shm ready) = ok (some shm, ready, false)

-- `udo_shm_create`; `own` is whether the caller passes memory for the context, which is zero, as
-- `udo_shm_destroy` leaves it.
pub create :
    Answers → (own : Bool) → Option CreateInfo → Segment → Outcome (Option Shm × Segment × Bool)
unfolding try_create finish_create
create os own info seg =
    if not (own || os.calloc)
    then ok (none, seg, false)
    else try_create os info seg >>= finish_create seg

-- `p_check_proc_index`: the index is refused.
pub check_proc_index : Segment → ℕ → Bool
check_proc_index seg proc_index = ltb (seg.words 0) proc_index

-- `udo_shm_get_data` and `udo_shm_get_data_size` of a context: an offset, NULL and -1 being `none`
unfoldable pub get_data : Shm → Segment → ℕ → Option ℕ
unfolding check_proc_index
get_data shm seg proc_index =
    if check_proc_index seg proc_index
    then none
    else elim (get_or shm.procs proc_index none) [ none ↦ none | some p ↦ some p.data_off ]

unfoldable pub get_data_size : Shm → Segment → ℕ → Option ℕ
unfolding check_proc_index
get_data_size shm seg proc_index =
    if check_proc_index seg proc_index
    then none
    else elim (get_or shm.procs proc_index none) [ none ↦ some 0 | some p ↦ some p.data_sz ]
