-- ===== src/Futex.antt =====
-- src/futex.c: one 32-bit word that threads lock, release and sleep on.
pub mod Create
pub mod Threads
pub mod Exclusion
pub mod Wakeup
pub mod Waiting
pub mod Condition
use libcando.Base.{
  ℕ, zero, suc, ◌+◌, ◌-◌, ◌*◌, ◌<◌, ◌≡◌, ◌≢◌, Bool, not, Option, none, some, ◌||◌, ◌==◌, ltb,
  if◌then◌else◌,
}
use libcando.Macros.{page_size}

-- UDO_FUTEX_LOCK, UDO_FUTEX_UNLOCK, UDO_FUTEX_UNLOCK_FORCE
abbrev pub locked : ℕ
locked = 1

abbrev pub unlocked : ℕ
unlocked = 0

abbrev pub unlock_force : ℕ
unlock_force = 0x66AFB55C

-- CONTENTION_LOOP_CNT
abbrev pub contention_loop_cnt : ℕ
contention_loop_cnt = 999999999

-- `struct udo_futex_create_info`
pub record CreateInfo : Type 0 where
  pub size : ℕ
  pub count : ℕ

-- The words of a mapping, by their index
abbrev pub Words : Type 0
Words = ℕ → ℕ

-- The loop of `udo_futex_create` over `n` more words
pub store_locked : (n f : ℕ) → Words → Words
store_locked zero f fux = fux
store_locked (suc n) f fux = store_locked n (f + 1) (λ i. if f == i then locked else fux i)

-- `udo_futex_create`; `mapped` is whether `mmap` succeeds, and a new mapping is zero.
pub create : (mapped : Bool) → Option CreateInfo → Option Words
unfolding store_locked
create mapped none = none
create mapped (some i) =
    if i.size == 0 || i.count == 0 || ltb page_size (i.count * 4)
    then none
    else if not mapped
    then none
    else some (store_locked i.count 0 (λ _. 0))

-- `udo_futex_destroy` of a word that is not NULL: the bytes that it unmaps
unfoldable pub destroy : ℕ → ℕ
destroy size = if size == 0 then 4 else size
