-- ===== src/Shm/Channel.antt =====
-- `udo_shm_data_write` and `udo_shm_data_read` on one entry by any number of processes, an access to
-- the shared memory at a time, while others attach by `udo_shm_create`. A process that waits for a
-- futex, or that an access behind the mapping has ended, is one that makes no step; Futex/Exclusion has the lock's own steps.
pub mod Inside
pub mod Moves
pub mod Fifo
pub mod Progress
pub mod Runs
pub mod Delivery
pub mod Ints
pub mod Stores
pub mod Loads
pub mod Whole
use libcando.Base.{
  Bool, true, ℕ, zero, ◌+◌, ◌-◌, ◌*◌, ◌%◌, ◌<◌, ◌≤◌, ◌≡◌, List, [], ◌∷◌, ◌++◌, length, get_or, ◌==◌,
  if◌then◌else◌,
}
use libcando.Futex.{locked, unlocked}
use libcando.Shm.{put}
use libcando.Shm.Transfer.Calls.{rounds}

-- The size that every call passes, the bytes from the segment's start to the end of the mapping,
-- whether processes attach meanwhile, and whether a call may find errno to be EINTR
pub record Use : Type 0 where
  pub size : ℕ
  pub room : ℕ
  pub attaches : Bool
  pub interrupts : Bool

-- The caller's data, an `int` each
abbrev pub Message : Type 0
Message = List ℕ

-- The entry's two futexes, and the segment's ints by their byte offset
pub record Shared : Type 0 where
  pub wr_fux : ℕ
  pub rd_fux : ℕ
  pub ints : ℕ → ℕ

-- Where a process stands; the loops' `s` is `4 * i`.
pub data Pc : Type 0 where
  out : Pc
  want_wr : Message → Pc  -- in `udo_futex_lock` of the write futex
  storing : (i : ℕ) → Message → Pc  -- before the loop's test
  stored : Message → Pc  -- before `udo_futex_unlock` of the read futex
  want_rd : Pc  -- in `udo_futex_lock` of the read futex
  loading : (i : ℕ) → (got : Message) → Pc  -- before the loop's test
  clearing : (i : ℕ) → (got : Message) → Pc  -- before `__atomic_clear`
  emptied : (got : Message) → Pc  -- before `udo_futex_unlock` of the write futex

abbrev pub store_int : Shared → ℕ → ℕ → Shared
store_int m off v = record m { ints = put m.ints off v }

-- `__atomic_clear` clears the lowest byte of an int.
abbrev pub clear_int : Shared → ℕ → Shared
clear_int m off = store_int m off (m.ints off - m.ints off % 256)

-- A step of one process, with the message that it has written and the one that it has read
pub data Move (u : Use) (m : Shared) : Pc → Shared → Pc → List Message → List Message → Type 0 where
  write : (msg : Message) → length msg ≡ rounds u.size → Move u m out m (want_wr msg) [] []
  lock_wr :
      {msg : Message}
      → m.wr_fux ≡ unlocked
      → Move u m (want_wr msg) (record m { wr_fux = locked }) (storing zero msg) [] []
  -- errno was EINTR, and -EINTR is returned.
  give_up_wr :
      {msg : Message}
      → u.interrupts ≡ true
      → m.wr_fux ≡ unlocked
      → Move u m (want_wr msg) (record m { wr_fux = locked }) out [] []
  store :
      {i : ℕ} {msg : Message}
      → 4 * i < u.size
      → 4 * i + 4 ≤ u.room
      → Move u m (storing i msg) (store_int m (4 * i) (get_or msg i 0)) (storing (i + 1) msg) [] []
  end_store :
      {i : ℕ} {msg : Message} → u.size ≤ 4 * i → Move u m (storing i msg) m (stored msg) [] []
  unlock_rd :
      {msg : Message} → Move u m (stored msg) (record m { rd_fux = unlocked }) out (msg ∷ []) []
  read : Move u m out m want_rd [] []
  lock_rd :
      m.rd_fux ≡ unlocked → Move u m want_rd (record m { rd_fux = locked }) (loading zero []) [] []
  give_up_rd :
      u.interrupts ≡ true
      → m.rd_fux ≡ unlocked
      → Move u m want_rd (record m { rd_fux = locked }) out [] []
  load :
      {i : ℕ} {got : Message}
      → 4 * i < u.size
      → 4 * i + 4 ≤ u.room
      → Move u m (loading i got) m (clearing i (got ++ (m.ints (4 * i) ∷ []))) [] []
  clear :
      {i : ℕ} {got : Message}
      → Move u m (clearing i got) (clear_int m (4 * i)) (loading (i + 1) got) [] []
  end_load :
      {i : ℕ} {got : Message} → u.size ≤ 4 * i → Move u m (loading i got) m (emptied got) [] []
  unlock_wr :
      {got : Message} → Move u m (emptied got) (record m { wr_fux = unlocked }) out [] (got ∷ [])
  -- The exchange of the read futex in `p_shm_create`; that of the write futex stores what it finds.
  attach :
      u.attaches ≡ true
      → Move u m out
          (record m { rd_fux = if m.rd_fux == unlocked then locked else m.rd_fux })
          out
          []
          []

-- The messages written and read, oldest first
pub record System : Type 0 where
  pub shared : Shared
  pub pc : ℕ → Pc
  pub written : List Message
  pub taken : List Message

abbrev pub update : (ℕ → Pc) → ℕ → Pc → ℕ → Pc
update pc i p j = if i == j then p else pc j

pub data Step (u : Use) (s : System) : System → Type 0 where
  moves :
      (k : ℕ) {m : Shared} {p : Pc} {ws rs : List Message}
      → Move u s.shared (s.pc k) m p ws rs
      → Step u s (record {
        shared = m;
        pc = update s.pc k p;
        written = s.written ++ ws;
        taken = s.taken ++ rs;
      })

-- The entry as the first `udo_shm_create` makes it, with the segment's ints at hand
abbrev pub init : (ℕ → ℕ) → System
init ints = record {
  shared = record { wr_fux = unlocked; rd_fux = locked; ints = ints };
  pc = λ k. out;
  written = [];
  taken = [];
}

pub data Reach (u : Use) (ints : ℕ → ℕ) : System → Type 0 where
  start : Reach u ints (init ints)
  later : {s t : System} → Reach u ints s → Step u s t → Reach u ints t
