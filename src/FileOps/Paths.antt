-- ===== src/FileOps/Paths.antt =====
-- The path of a file, which one buffer holds with its last slash taken out
use libcando.Base.{
  ℕ, zero, suc, ◌+◌, ◌-◌, ◌<◌, ◌≤◌, ◌≡◌, refl, ◌≢◌, ◌⊎◌, inl, inr, arith, ◌||◌, Option, none, some,
  ◌==◌, if◌then◌else◌, ok, Returns, Returns-bind, Bool-cases,
}
use libcando.Base.Memory.{Mem}
use libcando.Macros.{file_path_max}
use libcando.FileOps.{Flops, slash, put, last_slash, set_fname_off}

-- `udo_file_ops_get_filename`: an index into `full_path`
pub get_filename : Flops → Option ℕ
get_filename flops = if flops.fname_off == 0 then none else some flops.fname_off

-- `udo_file_ops_get_dirname`
pub get_dirname : Flops → Option ℕ
get_dirname flops = if flops.full_path 0 == 0 then none else some 0

-- `udo_file_ops_get_full_path`
pub get_full_path : Flops → Option ℕ × Flops
get_full_path flops =
    if flops.full_path 0 == 0 || flops.fname_off == 0
    then (none, flops)
    else (some 0, record flops { full_path = put flops.full_path (flops.fname_off - 1) slash })

-- `udo_file_ops_reset_full_path`
pub reset_full_path : Flops → Flops
reset_full_path flops =
    if flops.full_path 0 == 0 || flops.fname_off == 0
    then flops
    else record flops { full_path = put flops.full_path (flops.fname_off - 1) 0 }

-- `j` is the last slash up to `i`, or 0.
abbrev IsLast : (i : ℕ) → Mem → (j : ℕ) → Type 0
IsLast i path j =
    (j ≤ i) × ((j ≡ 0) ⊎ (path j ≡ slash)) × ((k : ℕ) → j < k → k ≤ i → path k ≢ slash)

last_slash-IsLast :
    (i : ℕ) (path : Mem) → i < file_path_max → Returns (IsLast i path) (last_slash i path)
unfolding last_slash
last_slash-IsLast zero path h = (omega arith, inl refl, λ k a b. absurd (omega arith))
last_slash-IsLast (suc i) path h = ground (arith, last_slash-IsLast i path)

-- What the getters answer of a context whose path `path` has its last slash at `j`
abbrev pub Split : (length : ℕ) → Mem → Flops → Type 0
Split length path flops =
    (j : ℕ) × (get_filename flops ≡ some (j + 1))
    × (get_dirname flops ≡ some 0)
    × (path j ≡ slash)
    × ((k : ℕ) → j < k → k ≤ length → path k ≢ slash)
    × (flops.full_path j ≡ 0)
    × ((get_full_path flops).0 ≡ some 0)
    × ((k : ℕ) → (get_full_path flops).1.full_path k ≡ path k)
    × ((k : ℕ) → (reset_full_path ((get_full_path flops).1)).full_path k ≡ flops.full_path k)

split :
    (flops : Flops) (length j : ℕ)
    → IsLast length flops.full_path j
    → 0 < j
    → flops.full_path 0 ≢ 0
    → Split length flops.full_path
        (record flops { full_path = put flops.full_path j 0; fname_off = j + 1 })
unfolding get_filename get_dirname get_full_path reset_full_path
split flops length j last h nonempty =
    let at : flops.full_path j ≡ slash = ground (arith, last.1) in
    (
      j,
      ground arith,
      ground arith,
      at,
      last.2,
      ground arith,
      ground arith,
      λ k. elim (Bool-cases (j == k)) [ inl t ↦ ground arith | inr f ↦ ground arith ],
      λ k. ground arith,
    )

pub set_fname_off-Returns :
    (P : Flops → Type 0) (flops : Flops) (length : ℕ)
    → length < file_path_max
    → ((i : ℕ) → P (record flops { full_path = put flops.full_path i 0; fname_off = i + 1 }))
    → Returns P (set_fname_off flops length)
unfolding set_fname_off
set_fname_off-Returns P flops length fits all =
    Returns-bind (IsLast length flops.full_path) P (last_slash length flops.full_path)
      (λ i. ok (record flops { full_path = put flops.full_path i 0; fname_off = i + 1 }))
      (last_slash-IsLast length flops.full_path fits) (λ i _. all i)

-- `p_set_fname_off` of a path that is not empty, has a slash behind its first character, and fits
-- the buffer: the directory is everything before the last slash, the file name everything behind
-- it, without any slash, and `udo_file_ops_get_full_path` gives back the path that was set, each
-- byte of it; `udo_file_ops_reset_full_path` then splits it again.
pub set_fname_off-Split :
    (flops : Flops) (length s : ℕ)
    → length < file_path_max
    → 0 < s
    → s ≤ length
    → flops.full_path s ≡ slash
    → flops.full_path 0 ≢ 0
    → Returns (Split length flops.full_path) (set_fname_off flops length)
unfolding set_fname_off
set_fname_off-Split flops length s fits positive inside_path at_slash nonempty =
    Returns-bind (IsLast length flops.full_path) (Split length flops.full_path)
      (last_slash length flops.full_path)
      (λ i. ok (record flops { full_path = put flops.full_path i 0; fname_off = i + 1 }))
      (last_slash-IsLast length flops.full_path fits)
      (λ j last. split flops length j last (ground (arith, last.2 s)) nonempty)

-- What the getters answer of a context with no directory
abbrev pub Unnamed : Flops → Type 0
Unnamed flops =
    (flops.full_path 0 ≡ 0)
    × (get_filename flops ≡ some 1)
    × (get_dirname flops ≡ none)
    × (get_full_path flops ≡ (none, flops))

unnamed :
    (flops : Flops) (j : ℕ)
    → j ≡ 0
    → Unnamed (record flops { full_path = put flops.full_path j 0; fname_off = j + 1 })
unfolding get_filename get_dirname get_full_path
unnamed flops j h = rw h (refl, refl, refl, refl)

-- `p_set_fname_off` of a path whose only slash, if any, is its first character takes that
-- character out: there is no directory name and no full path any more, and the file name starts at
-- the second character.
pub set_fname_off-short :
    (flops : Flops) (length : ℕ)
    → length < file_path_max
    → ((k : ℕ) → 0 < k → k ≤ length → flops.full_path k ≢ slash)
    → Returns
        (λ f.
          (f.full_path 0 ≡ 0)
          × (get_filename f ≡ some 1)
          × (get_dirname f ≡ none)
          × (get_full_path f ≡ (none, f)))
        (set_fname_off flops length)
unfolding set_fname_off
set_fname_off-short flops length fits unbroken =
    Returns-bind (IsLast length flops.full_path) (Unnamed) (last_slash length flops.full_path)
      (λ i. ok (record flops { full_path = put flops.full_path i 0; fname_off = i + 1 }))
      (last_slash-IsLast length flops.full_path fits)
      (λ j last. unnamed flops j (ground (arith, last.1, unbroken j)))
