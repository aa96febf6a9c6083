-- ===== src/FileOps.antt =====
-- src/file-ops.c: a file that is mapped into memory, its path, and its lines.
pub mod Fields
pub mod Lines
pub mod Paths
pub mod Sizes
pub mod Remove
use libcando.Base.{
  ℕ, zero, suc, ◌+◌, ◌-◌, ◌*◌, ◌^◌, Bool, true, false, not, ◌&&◌, ◌||◌, Option, none, some, List,
  [], ◌∷◌, ◌++◌, ◌==◌, ltb, leb, if◌then◌else◌, Outcome, ok, fault, ◌>>=◌, add64,
}
use libcando.Base.Memory.{Mem}
use libcando.Macros.{page_size, file_path_max, min_of, byte_align}

-- '/' and '\n'
abbrev pub slash : ℕ
slash = 47

abbrev pub newline : ℕ
newline = 10

-- The value -1 as a `size_t` and as a pointer
abbrev pub minus_one : ℕ
minus_one = 2 ^ 64 - 1

-- PIPE_MAX_BUFF_SIZE
abbrev pub pipe_max_buff_size : ℕ
pipe_max_buff_size = 2 ^ 16

-- `struct udo_file_ops`, less its error and the flag for free(3). A descriptor or a pointer is a
-- number.
pub record Flops : Type 0 where
  pub fd : ℕ
  pub pipe_read : ℕ  -- pipe_fds[0]
  pub pipe_write : ℕ  -- pipe_fds[1]
  pub alloc_sz : ℕ
  pub data_sz : ℕ
  pub data_ptr : ℕ
  pub fname_off : ℕ
  pub full_path : Mem

-- A context that calloc(3) returns
abbrev pub fresh_flops : Flops
fresh_flops = record {
  fd = 0;
  pipe_read = 0;
  pipe_write = 0;
  alloc_sz = 0;
  data_sz = 0;
  data_ptr = 0;
  fname_off = 0;
  full_path = λ _. 0;
}

-- The system calls that change something outside the context
pub data Call : Type 0 where
  mkdir : (path : Mem) → Call
  ftruncate : (fd size : ℕ) → Call
  munmap : (data_ptr size : ℕ) → Call
  close : (fd : ℕ) → Call
  remove : (path : List ℕ) → Call
  rmdir : (path : List ℕ) → Call

-- `struct udo_file_ops_create_info`; a name is the memory from its first character on.
pub record CreateInfo : Type 0 where
  pub fname : Option Mem
  pub size : ℕ
  pub offset : ℕ
  pub create_pipe : Bool
  pub create_dir : Bool
  pub protect : Bool

-- What the system answers: the size that stat(2) finds, a descriptor, the two ends of a pipe,
-- whether ftruncate(2) and calloc(3) succeed, and the address of a mapping.
pub record Answers : Type 0 where
  pub calloc : Bool
  pub stat : Option ℕ
  pub opened : Option ℕ
  pub pipe : Option (ℕ × ℕ)
  pub truncated : Bool
  pub mmap : Option ℕ

abbrev pub put : Mem → ℕ → ℕ → Mem
put m p v i = if p == i then v else m i

-- `memccpy` of at most `n` more bytes from index `i` on: it stops behind the first `c`.
pub memccpy : (n i : ℕ) → Mem → Mem → ℕ → Mem
memccpy zero i dest src c = dest
memccpy (suc n) i dest src c =
    let rest = memccpy n (i + 1) (put dest i (src i)) src c in
    if src i == c then put dest i (src i) else rest

-- `strnlen` of at most `n` more bytes
pub strnlen : (n i : ℕ) → Mem → ℕ
strnlen zero i s = i
strnlen (suc n) i s = let rest = strnlen n (i + 1) s in if s i == 0 then i else rest

-- The loop of `p_create_directories` over `n` more bytes: the buffer after it, and the calls. A
-- call sees the buffer cut off at the slash.
pub create_directories : (n i : ℕ) → Mem → Mem × List Call
create_directories zero i dir = (dir, [])
create_directories (suc n) i dir =
    let cut = put dir i 0 in
    let made = create_directories n (i + 1) (put cut i slash) in
    let rest = create_directories n (i + 1) dir in
    if dir i == slash then (made.0, mkdir cut ∷ made.1) else rest

-- The loop of `p_set_fname_off`; the buffer ends at `file_path_max`.
pub last_slash : (i : ℕ) → Mem → Outcome ℕ
last_slash zero path = ok 0
last_slash (suc i) path =
    let rest = last_slash i path in
    if leb file_path_max (suc i) then fault else if path (suc i) == slash then ok (suc i) else rest

-- `p_set_fname_off`
pub set_fname_off : Flops → (length : ℕ) → Outcome Flops
unfolding last_slash
set_fname_off flops length = last_slash length flops.full_path >>= λ i.
    ok (record flops { full_path = put flops.full_path i 0; fname_off = i + 1 })

-- `udo_file_ops_destroy`
pub destroy : Flops → (data_sz : ℕ) → List Call
destroy flops data_sz =
    (munmap flops.data_ptr flops.alloc_sz
      ∷ (if data_sz == 0 then [] else ftruncate flops.fd data_sz ∷ []))
    ++ (close flops.pipe_read ∷ close flops.pipe_write ∷ close flops.fd ∷ [])

-- The sizes that `udo_file_ops_create` gives a file of a name, before it rounds
pub set_sizes : (stat : Option ℕ) → CreateInfo → Flops → Flops
set_sizes none info flops = record flops { data_sz = 0; alloc_sz = byte_align info.size page_size }
set_sizes (some st_size) info flops =
    if info.size == 0
    then record flops { data_sz = st_size; alloc_sz = byte_align st_size page_size }
    else record flops { data_sz = 0; alloc_sz = byte_align info.size page_size }

-- `udo_file_ops_create` with the context `flops`, where a name is given: the context if the file
-- opens, and the calls made
pub open_file : Answers → CreateInfo → Flops → Mem → Outcome (Option Flops × List Call)
unfolding memccpy strnlen create_directories set_fname_off destroy
open_file answers info flops fname =
    let path = memccpy file_path_max 0 flops.full_path fname newline in
    let length = strnlen file_path_max 0 path in
    let made = if info.create_dir then create_directories length 0 path else (path, []) in
    elim answers.opened [
      | none ↦ ok (none, made.1 ++ destroy (record flops { fd = minus_one; full_path = made.0 }) 0)
      | some fd ↦ set_fname_off (record flops { fd = fd; full_path = made.0 }) length >>= λ split.
          ok (some (set_sizes answers.stat info split), made.1)
    ]

-- The branch of `udo_file_ops_create` for a pipe
open_pipe : Option (ℕ × ℕ) → Flops → Option Flops × List Call
unfolding destroy
open_pipe none flops = (none, destroy flops 0)
open_pipe (some ends) flops = (some (record flops { pipe_read = ends.0; pipe_write = ends.1 }), [])

-- The mapping of `udo_file_ops_create`, after the calls `cut`
pub map_file : Option ℕ → Flops → List Call → Option Flops × List Call
unfolding destroy
map_file none flops cut =
    if flops.alloc_sz == 0
    then (some (record flops { data_ptr = minus_one }), cut)
    else (none, cut ++ destroy (record flops { data_ptr = minus_one }) 0)
map_file (some address) flops cut = (some (record flops { data_ptr = address }), cut)

-- The end of `udo_file_ops_create`: a pipe, or the mapping of the file
pub finish_create : Answers → CreateInfo → Flops → Option Flops × List Call
unfolding open_pipe map_file destroy
finish_create answers info flops =
    let cut = ftruncate flops.fd flops.alloc_sz ∷ [] in
    if info.create_pipe
    then open_pipe answers.pipe flops
    else if not (flops.data_sz == 0)
    then map_file answers.mmap flops []
    else if not answers.truncated
    then (none, cut ++ destroy flops 0)
    else map_file answers.mmap flops cut

-- What follows the opening of the file
pub then_finish :
    Answers → CreateInfo → Option Flops × List Call → Outcome (Option Flops × List Call)
unfolding finish_create
then_finish answers info (none, calls) = ok (none, calls)
then_finish answers info (some flops, calls) =
    let done = finish_create answers info flops in ok (done.0, calls ++ done.1)

-- `udo_file_ops_create` with a context and the name, if there is one
create_in : Answers → CreateInfo → Flops → (fname : Option Mem) → Outcome (Option Flops × List Call)
unfolding open_file finish_create then_finish
create_in answers info flops none = ok (finish_create answers info flops)
create_in answers info flops (some fname) =
    open_file answers info flops fname >>= then_finish answers info

-- The context to start from: the caller's own with all that it holds, or one of calloc(3)
abbrev pub context_of : (calloc : Bool) → (own : Option Flops) → Option Flops
context_of calloc (some flops) = some flops
context_of true none = some fresh_flops
context_of false none = none

create_with : Answers → CreateInfo → Option Flops → Outcome (Option Flops × List Call)
unfolding create_in
create_with answers info none = ok (none, [])
create_with answers info (some flops) = create_in answers info flops info.fname

-- `udo_file_ops_create`; `own` is the caller's context, if there is one.
pub create : Answers → (own : Option Flops) → Option CreateInfo → Outcome (Option Flops × List Call)
unfolding create_with
create answers own none = ok (none, [])
create answers own (some info) = create_with answers info (context_of answers.calloc own)

-- `udo_file_ops_zero_copy` with the two answers of splice(2), where a negative number is `none`:
-- the result, and the numbers of bytes asked for
unfoldable pub zero_copy : (first second : Option ℕ) → (size : ℕ) → Option ℕ × List ℕ
zero_copy first second size =
    let chunk = min_of size pipe_max_buff_size in
    if size == 0 then (none, []) else elim first [
      | none ↦ (none, chunk ∷ [])
      | some n ↦ if n == 0 then (some 0, chunk ∷ []) else (second, chunk ∷ chunk ∷ [])
    ]

-- `udo_file_ops_get_data`: a pointer
unfoldable pub get_data : Flops → (offset : ℕ) → Option ℕ
get_data flops offset =
    if flops.data_ptr == 0 || leb flops.data_sz offset
    then none
    else some (add64 flops.data_ptr offset)
