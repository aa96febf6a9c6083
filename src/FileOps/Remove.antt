-- ===== src/FileOps/Remove.antt =====
-- `udo_file_ops_remove_dir`
use libcando.Base.{
  ℕ, ◌-◌, ◌%◌, ◌^◌, ◌≡◌, refl, ap, ◌⊎◌, ◌↔◌, inl, inr, Bool-cases, arith, Bool, true, false, ◌||◌,
  List, [], ◌∷◌, ◌++◌, take, ◌==◌, if◌then◌else◌,
}
use libcando.Macros.{file_path_max, strtou}
use libcando.Macros.Hash.{char_sum, IsAscii, strtou-sum}
use libcando.FileOps.{Call, remove, rmdir, slash}

-- What readdir(3), stat(2) and opendir(3) find in a directory, "." and ".." included
pub data Entries : Type 0 where
  no_more : Entries
  file : (name : List ℕ) → Entries → Entries
  missing : (name : List ℕ) → Entries → Entries
  closed : (name : List ℕ) → Entries → Entries
  folder : (name : List ℕ) → (inside : Entries) → Entries → Entries

-- The cases 46 and 92 of the switch in `udo_file_ops_remove_dir`
pub is_skipped : List ℕ → Bool
is_skipped name = strtou name == 46 || strtou name == 92

-- The path that snprintf(3) writes
unfoldable pub entry_path : List ℕ → List ℕ → List ℕ
entry_path dir name = take (file_path_max - 1) (dir ++ (slash ∷ name))

-- The loop of `udo_file_ops_remove_dir`
remove_entries : (dir : List ℕ) → Entries → List Call
unfolding is_skipped
remove_entries dir no_more = []
remove_entries dir (file name es) =
    let rest = remove_entries dir es in
    if is_skipped name then rest else remove (entry_path dir name) ∷ rest
remove_entries dir (missing name es) = remove_entries dir es
remove_entries dir (closed name es) = remove_entries dir es
remove_entries dir (folder name inside es) =
    let path = entry_path dir name in
    let rest = remove_entries dir es in
    let emptied = remove_entries path inside in
    if is_skipped name then rest else emptied ++ (rmdir path ∷ rest)

-- `udo_file_ops_remove_dir` of a directory that opens
pub remove_dir : (dir : List ℕ) → Entries → List Call
unfolding remove_entries
remove_dir dir es = remove_entries dir es ++ (rmdir dir ∷ [])

-- A call is among those made.
abbrev pub Occurs : Call → List Call → Type 0
Occurs c [] = ⊥
Occurs c (x ∷ xs) = (c ≡ x) ⊎ Occurs c xs

-- The files that stand below a directory, where no name on the way is skipped
pub data Stands : (dir : List ℕ) → Entries → (path : List ℕ) → Type 0 where
  here :
      {dir name : List ℕ} {es : Entries}
      → is_skipped name ≡ false
      → Stands dir (file name es) (entry_path dir name)
  below :
      {dir name path : List ℕ} {inside es : Entries}
      → is_skipped name ≡ false
      → Stands (entry_path dir name) inside path
      → Stands dir (folder name inside es) path
  past_file :
      {dir name path : List ℕ} {es : Entries} → Stands dir es path → Stands dir (file name es) path
  past_missing :
      {dir name path : List ℕ} {es : Entries}
      → Stands dir es path
      → Stands dir (missing name es) path
  past_closed :
      {dir name path : List ℕ} {es : Entries}
      → Stands dir es path
      → Stands dir (closed name es) path
  past_folder :
      {dir name path : List ℕ} {inside es : Entries}
      → Stands dir es path
      → Stands dir (folder name inside es) path

Occurs-left : (c : Call) (xs ys : List Call) → Occurs c xs → Occurs c (xs ++ ys)
Occurs-left c [] ys o = elim o [ ]
Occurs-left c (x ∷ xs) ys (inl e) = inl e
Occurs-left c (x ∷ xs) ys (inr o) = inr (Occurs-left c xs ys o)

Occurs-right : (c : Call) (xs ys : List Call) → Occurs c ys → Occurs c (xs ++ ys)
Occurs-right c [] ys o = o
Occurs-right c (x ∷ xs) ys o = inr (Occurs-right c xs ys o)

Occurs-append : (c : Call) (xs ys : List Call) → Occurs c (xs ++ ys) → Occurs c xs ⊎ Occurs c ys
Occurs-append c [] ys o = inr o
Occurs-append c (x ∷ xs) ys (inl e) = inl (inl e)
Occurs-append c (x ∷ xs) ys (inr o) = elim (Occurs-append c xs ys o) [
  | inl l ↦ inl (inr l)
  | inr r ↦ inr r
]

Occurs-if :
    (b : Bool) (c : Call) (xs ys : List Call)
    → Occurs c (if b then xs else ys)
    → ((b ≡ true) × Occurs c xs) ⊎ ((b ≡ false) × Occurs c ys)
Occurs-if true c xs ys o = inl (refl, o)
Occurs-if false c xs ys o = inr (refl, o)

stands-Occurs :
    {dir path : List ℕ} {es : Entries}
    → Stands dir es path
    → Occurs (remove path) (remove_entries dir es)
unfolding remove_entries
stands-Occurs (here h) = rw h (inl refl)
stands-Occurs (below h s) = rw h (Occurs-left _ _ _ (stands-Occurs s))
stands-Occurs (past_file {name = name} s) = elim (Bool-cases (is_skipped name)) [
  | inl t ↦ rw t (stands-Occurs s)
  | inr f ↦ rw f (inr (stands-Occurs s))
]
stands-Occurs (past_missing s) = stands-Occurs s
stands-Occurs (past_closed s) = stands-Occurs s
stands-Occurs (past_folder {dir = dir} {name = name} {path = path} {inside = inside} {es = es} s) =
    elim (Bool-cases (is_skipped name)) [
      | inl t ↦ rw t (stands-Occurs s)
      | inr f ↦ rw f (
          Occurs-right (remove path) (remove_entries (entry_path dir name) inside)
            (rmdir (entry_path dir name) ∷ remove_entries dir es) (inr (stands-Occurs s)))
    ]

removed_path : List ℕ → Call → List ℕ
removed_path path (remove p) = p
removed_path path c = path

Stands-here :
    (dir path name : List ℕ) (es : Entries)
    → is_skipped name ≡ false
    → remove path ≡ remove (entry_path dir name)
    → Stands dir (file name es) path
unfolding removed_path
Stands-here dir path name es f e =
    let p : path ≡ entry_path dir name = ap (removed_path path) e in rw p (here f)

occurs-Stands :
    (dir path : List ℕ) (es : Entries)
    → Occurs (remove path) (remove_entries dir es)
    → Stands dir es path
unfolding remove_entries
occurs-Stands dir path no_more o = elim o [ ]
occurs-Stands dir path (file name es) o = elim (Occurs-if (is_skipped name) _ _ _ o) [
  | inl (t, q) ↦ past_file (occurs-Stands dir path es q)
  | inr (f, inl e) ↦ Stands-here dir path name es f e
  | inr (f, inr q) ↦ past_file (occurs-Stands dir path es q)
]
occurs-Stands dir path (missing name es) o = past_missing (occurs-Stands dir path es o)
occurs-Stands dir path (closed name es) o = past_closed (occurs-Stands dir path es o)
occurs-Stands dir path (folder name inside es) o = elim (Occurs-if (is_skipped name) _ _ _ o) [
  | inl (t, q) ↦ past_folder (occurs-Stands dir path es q)
  | inr (f, q) ↦ elim (Occurs-append _ (remove_entries (entry_path dir name) inside) _ q) [
    | inl l ↦ below f (occurs-Stands (entry_path dir name) path inside l)
    | inr (inl e) ↦ absurd (ground arith)
    | inr (inr r) ↦ past_folder (occurs-Stands dir path es r)
  ]
]

-- `udo_file_ops_remove_dir` removes a file exactly when it stands below the directory and neither
-- its name nor the name of a folder on the way to it is one that the switch skips.
pub remove_dir-Stands :
    (dir path : List ℕ) (es : Entries)
    → Occurs (remove path) (remove_dir dir es) ↔ Stands dir es path
unfolding remove_dir
remove_dir-Stands dir path es = (
  λ o. elim (Occurs-append _ (remove_entries dir es) _ o) [
    | inl l ↦ occurs-Stands dir path es l
    | inr (inl e) ↦ absurd (ground arith)
    | inr (inr r) ↦ absurd r
  ],
  λ s. Occurs-left (remove path) (remove_entries dir es) (rmdir dir ∷ []) (stands-Occurs s),
)

-- A name of ASCII characters is skipped exactly when its characters add up to 46 or to 92, modulo
-- 2 ^ 32: so are "." and "..", and so are names such as "+\x03" or the single backslash.
pub is_skipped_iff :
    (name : List ℕ)
    → IsAscii name
    → (is_skipped name ≡ true) ↔ ((char_sum name % 2 ^ 32 ≡ 46) ⊎ (char_sum name % 2 ^ 32 ≡ 92))
unfolding is_skipped
is_skipped_iff name a = ground (arith, strtou-sum name a)
