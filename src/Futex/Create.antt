-- ===== src/Futex/Create.antt =====
-- `udo_futex_create`
use libcando.Base.{
  ℕ, zero, suc, ◌+◌, ◌*◌, ◌≤◌, ◌<◌, ◌≡◌, ◌⊎◌, arith, Bool, true, false, Option, none, some, ◌==◌,
  ltb, if◌then◌else◌,
}
use libcando.Macros.{page_size}
use libcando.Futex.{CreateInfo, Words, locked, store_locked, create}

store_locked-at :
    (n f : ℕ) (fux : Words) (i : ℕ)
    → store_locked n f fux i ≡ (if ltb i f then fux i else if ltb i (f + n) then locked else fux i)
unfolding store_locked
store_locked-at zero f fux i = ground arith
store_locked-at (suc n) f fux i =
    ground (arith, store_locked-at n (f + 1) (λ i. if f == i then locked else fux i) i)

-- What a caller learns from the answer
abbrev pub Created : (mapped : Bool) → CreateInfo → Option Words → Type 0
Created mapped i none =
    (i.size ≡ 0) ⊎ ((i.count ≡ 0) ⊎ ((page_size < i.count * 4) ⊎ (mapped ≡ false)))
Created mapped i (some fux) =
    (0 < i.size)
    × (0 < i.count)
    × (i.count * 4 ≤ page_size)
    × (mapped ≡ true)
    × ((f : ℕ) → fux f ≡ (if ltb f i.count then locked else 0))

-- `udo_futex_create` answers NULL exactly when the size or the count is 0, when the words do not
-- fit a page, or when the mapping fails. Otherwise every one of the words asked for is locked, and
-- the words behind them in the page are 0.
pub create_lem : (mapped : Bool) (i : CreateInfo) → Created mapped i (create mapped (some i))
unfolding create
create_lem false i = ground arith
create_lem true i = ground (arith, store_locked-at i.count 0 (λ _. 0))
