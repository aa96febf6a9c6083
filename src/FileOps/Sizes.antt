-- ===== src/FileOps/Sizes.antt =====
-- What `udo_file_ops_create` maps, and what `udo_file_ops_destroy` gives back
use mathlib.Core.Path.{subst}
use libcando.Base.{
  ℕ, zero, suc, ◌+◌, ◌-◌, ◌%◌, ◌^◌, ◌<◌, ◌≤◌, ◌≡◌, refl, ◌≢◌, inl, inr, arith, ap, sym, false, true,
  not, Option, none, some, List, [], ◌∷◌, ◌==◌, if◌then◌else◌, ok, Returns, Returns-bind,
  Returns-map, Bool-cases, Option-cases, ◌∙◌,
}
use libcando.Base.Memory.{Mem}
use libcando.Macros.{page_size, file_path_max}
use libcando.Macros.Align.{byte_align-least}
use libcando.FileOps.Paths.{set_fname_off-Returns}
use libcando.FileOps.{
  Flops, CreateInfo, Answers, Call, fresh_flops, newline, put, memccpy, strnlen, set_sizes,
  map_file, create_directories, set_fname_off, open_file, finish_create, then_finish, create_in,
  create_with, context_of, create, destroy, munmap, close,
}

-- A property of the context, where there is one
abbrev pub Given : (Flops → Type 0) → Option Flops → Type 0
Given P none = Unit {0}
Given P (some f) = P f

abbrev pub IfCreated : (Flops → Type 0) → Option Flops × List Call → Type 0
IfCreated P r = Given P r.0

-- The bytes that the caller asks for: the size of a file that exists, if the size is 0
abbrev pub wanted : (stat : Option ℕ) → CreateInfo → ℕ
wanted none info = info.size
wanted (some st_size) info = if info.size == 0 then st_size else info.size

-- The mapping holds whole pages, all of the bytes wanted and less than a page more, and all the
-- data; and the two ends of the pipe are those of the context from before.
abbrev pub Mapped : ℕ → Flops → Flops → Type 0
Mapped n old f =
    (f.data_sz ≤ f.alloc_sz)
    × (f.alloc_sz % page_size ≡ 0)
    × (n ≤ f.alloc_sz)
    × (f.alloc_sz < n + page_size)
    × (f.pipe_read ≡ old.pipe_read)
    × (f.pipe_write ≡ old.pipe_write)

set_sizes-Mapped :
    (stat : Option ℕ) (info : CreateInfo) (old flops : Flops)
    → wanted stat info ≤ 2 ^ 64 - page_size
    → flops.pipe_read ≡ old.pipe_read
    → flops.pipe_write ≡ old.pipe_write
    → Mapped (wanted stat info) old (set_sizes stat info flops)
unfolding set_sizes
set_sizes-Mapped none info old flops h r w = ground (arith, byte_align-least 12 info.size)
set_sizes-Mapped (some st_size) info old flops h r w =
    ground (arith, byte_align-least 12 info.size, byte_align-least 12 st_size)

map_file-Mapped :
    (address : Option ℕ) (old flops : Flops) (cut : List Call) (n : ℕ)
    → Mapped n old flops
    → IfCreated (Mapped n old) (map_file address flops cut)
unfolding map_file
map_file-Mapped none old flops cut n h = elim (Bool-cases (flops.alloc_sz == 0)) [
  | inl t ↦ rw t h
  | inr f ↦ rw f tt
]
map_file-Mapped (some a) old flops cut n h = h

finish_create-Mapped :
    (answers : Answers) (info : CreateInfo) (old flops : Flops) (n : ℕ)
    → info.create_pipe ≡ false
    → Mapped n old flops
    → IfCreated (Mapped n old) (finish_create answers info flops)
unfolding finish_create
finish_create-Mapped answers info old flops n pipeless h =
    rw pipeless (elim (Bool-cases (not (flops.data_sz == 0))) [
      | inl t ↦ rw t (map_file-Mapped answers.mmap old flops [] n h)
      | inr f ↦ rw f (elim (Bool-cases (not answers.truncated)) [
        | inl t ↦ rw t tt
        | inr f ↦ rw f (map_file-Mapped answers.mmap old flops _ n h)
      ])
    ])

-- A name that ends before the buffer does, with no newline in it
abbrev pub IsName : Mem → ℕ → Type 0
IsName fname s = (s < file_path_max) × (fname s ≡ 0) × ((k : ℕ) → k < s → fname k ≢ newline)

memccpy-before : (n i : ℕ) (dest src : Mem) (c j : ℕ) → j < i → memccpy n i dest src c j ≡ dest j
unfolding memccpy
memccpy-before zero i dest src c j h = refl
memccpy-before (suc n) i dest src c j h =
    ground (arith, memccpy-before n (i + 1) (put dest i (src i)) src c j)

memccpy-at :
    (n i : ℕ) (dest src : Mem) (c j : ℕ)
    → i ≤ j
    → j < i + n
    → ((k : ℕ) → k < j → src k ≢ c)
    → memccpy n i dest src c j ≡ src j
unfolding memccpy
memccpy-at zero i dest src c j h small none_before = absurd (omega arith)
memccpy-at (suc n) i dest src c j h small none_before = ground (
  arith,
  none_before i,
  memccpy-before n (i + 1) (put dest i (src i)) src c j,
  memccpy-at n (i + 1) (put dest i (src i)) src c j,
)

strnlen-bound : (n i : ℕ) (s : Mem) (j : ℕ) → i ≤ j → j < i + n → s j ≡ 0 → strnlen n i s ≤ j
unfolding strnlen
strnlen-bound zero i s j h small z = absurd (omega arith)
strnlen-bound (suc n) i s j h small z = ground (arith, strnlen-bound n (i + 1) s j)

path_length :
    (dest fname : Mem) (s : ℕ)
    → IsName fname s
    → strnlen file_path_max 0 (memccpy file_path_max 0 dest fname newline) < file_path_max
path_length dest fname s name =
    let at =
      memccpy-at file_path_max 0 dest fname newline s (omega arith) (omega (arith, name.0))
        name.2 in
    omega (
      arith,
      strnlen-bound file_path_max 0 (memccpy file_path_max 0 dest fname newline) s (omega arith)
          (omega (arith, name.0)) (at ∙ name.1),
      name.0,
    )

then_finish-Mapped :
    (answers : Answers) (info : CreateInfo) (n : ℕ) (old : Flops) (opened : Option Flops)
    (calls : List Call)
    → info.create_pipe ≡ false
    → Given (Mapped n old) opened
    → Returns (IfCreated (Mapped n old)) (then_finish answers info (opened, calls))
unfolding then_finish
then_finish-Mapped answers info n old none calls pipeless h = tt
then_finish-Mapped answers info n old (some flops) calls pipeless h =
    finish_create-Mapped answers info old flops n pipeless h

-- The file is opened with the context that is given.
open_file-Mapped :
    (answers : Answers) (info : CreateInfo) (old : Flops) (fname : Mem) (s : ℕ)
    → IsName fname s
    → wanted answers.stat info ≤ 2 ^ 64 - page_size
    → Returns (IfCreated (Mapped (wanted answers.stat info) old)) (open_file answers info old fname)
unfolding open_file
open_file-Mapped answers info old fname s name h =
    let path = memccpy file_path_max 0 old.full_path fname newline in
    let length = strnlen file_path_max 0 path in
    let made = if info.create_dir then create_directories length 0 path else (path, []) in
    let Plain = λ (f : Flops). (f.pipe_read ≡ old.pipe_read) × (f.pipe_write ≡ old.pipe_write) in
    elim (Option-cases answers.opened) [
      | inl e ↦ rw e tt
      | inr (fd, e) ↦ rw e (
          Returns-bind Plain (IfCreated (Mapped (wanted answers.stat info) old))
            (set_fname_off (record old { fd = fd; full_path = made.0 }) length)
            (λ flops. ok (some (set_sizes answers.stat info flops), made.1))
            (set_fname_off-Returns Plain (record old { fd = fd; full_path = made.0 }) length
              (path_length old.full_path fname s name) (λ _. (refl, refl)))
            (λ f p. set_sizes-Mapped answers.stat info old f h p.0 p.1))
    ]

create_in-Mapped :
    (answers : Answers) (old : Flops) (info : CreateInfo) (fname : Mem) (s : ℕ)
    → info.create_pipe ≡ false
    → IsName fname s
    → wanted answers.stat info ≤ 2 ^ 64 - page_size
    → Returns
        (IfCreated (Mapped (wanted answers.stat info) old))
        (create_in answers info old (some fname))
unfolding create_in
create_in-Mapped answers old info fname s pipeless name h =
    Returns-bind (IfCreated (Mapped (wanted answers.stat info) old))
      (IfCreated (Mapped (wanted answers.stat info) old)) (open_file answers info old fname)
      (then_finish answers info) (open_file-Mapped answers info old fname s name h)
      (λ o. then_finish-Mapped answers info (wanted answers.stat info) old o.0 o.1 pipeless)

-- `udo_file_ops_create` with the caller's context, whatever it holds, or one of calloc(3), for a file
-- and not for a pipe, whose name ends inside the path buffer with no newline, returns; and where it
-- gives a context, the mapping has whole pages: all the bytes wanted, which are the caller's size or,
-- if that is 0, those of the file that exists, and less than a page more. The data does not reach
-- past it, and both ends of the pipe are those of the caller's context, or 0. A whole page above the
-- bytes wanted is a 64-bit size.
pub create-Mapped :
    (answers : Answers) (own : Option Flops) (old : Flops) (info : CreateInfo) (fname : Mem) (s : ℕ)
    → context_of answers.calloc own ≡ some old
    → info.fname ≡ some fname
    → info.create_pipe ≡ false
    → IsName fname s
    → wanted answers.stat info ≤ 2 ^ 64 - page_size
    → Returns (IfCreated (Mapped (wanted answers.stat info) old)) (create answers own (some info))
unfolding create create_with
create-Mapped answers own old info fname s start given pipeless name h =
    let P = IfCreated (Mapped (wanted answers.stat info) old) in
    subst (λ c. Returns P (create_with answers info c)) (sym start)
      (subst (λ n. Returns P (create_in answers info old n)) (sym given)
        (create_in-Mapped answers old info fname s pipeless name h))

-- What `udo_file_ops_destroy` does to a context with no pipe
abbrev pub ClosesStdin : Flops → Type 0
ClosesStdin f =
    destroy f 0 ≡ munmap f.data_ptr f.alloc_sz ∷ (close 0 ∷ (close 0 ∷ (close f.fd ∷ [])))

closes : (n : ℕ) (o : Option Flops) → Given (Mapped n fresh_flops) o → Given ClosesStdin o
unfolding destroy
closes n none m = tt
closes n (some f) m = simp (m.4, m.5) refl

-- A context that `udo_file_ops_create` makes with calloc(3) for a file and not for a pipe has 0 for
-- both ends of its pipe, so `udo_file_ops_destroy` closes descriptor 0, the standard input of the
-- process, twice. The conditions are those under which the creation is known to return.
pub create-ClosesStdin :
    (answers : Answers) (info : CreateInfo) (fname : Mem) (s : ℕ)
    → answers.calloc ≡ true
    → info.fname ≡ some fname
    → info.create_pipe ≡ false
    → IsName fname s
    → wanted answers.stat info ≤ 2 ^ 64 - page_size
    → Returns (IfCreated ClosesStdin) (create answers none (some info))
create-ClosesStdin answers info fname s memory given pipeless name h =
    Returns-map (IfCreated (Mapped (wanted answers.stat info) fresh_flops)) (IfCreated ClosesStdin)
      (create answers none (some info)) (λ r. closes (wanted answers.stat info) r.0)
      (create-Mapped answers none fresh_flops info fname s (ap (λ c. context_of c none) memory)
        given pipeless name h)
