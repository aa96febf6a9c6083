-- ===== src/Tests/FileOpsTests.antt =====
-- src/file-ops.c at concrete files
use libcando.Base.{
  ℕ, zero, suc, ◌≢◌, ◌-◌, ◌<◌, ◌≡◌, ◌↔◌, inr, refl, arith, true, false, none, some, [], ◌∷◌, get_or,
  Returns,
}
use libcando.Base.Memory.{Mem}
use libcando.FileOps.{
  Flops, CreateInfo, Answers, create, set_fname_off, fresh_flops, remove, newline,
}
use libcando.FileOps.Lines.{line_starts, start_of, get_line, get_line-start}
use libcando.FileOps.Paths.{Split, set_fname_off-Split}
use libcando.FileOps.Sizes.{IfCreated, Mapped, IsName, create-Mapped}
use libcando.FileOps.Remove.{
  Entries, no_more, file, folder, Occurs, Stands, remove_dir, remove_dir-Stands,
}

-- "ab\ncd\n"
abbrev text : Mem
text i = get_or (97 ∷ 98 ∷ 10 ∷ 99 ∷ 100 ∷ 10 ∷ []) i 0

abbrev two_lines : Flops
two_lines = record fresh_flops { data_ptr = 4096; data_sz = 6; alloc_sz = 4096 }

get_line-start_example :
    get_line two_lines text 2 ≡ some (start_of 0 (line_starts 6 0 text) (2 - 1))
get_line-start_example =
    get_line-start two_lines text 2 (λ e. absurd (omega arith)) (omega arith) (omega arith)
      (inr (omega arith))

-- "a/b"
abbrev path : Mem
path i = get_or (97 ∷ 47 ∷ 98 ∷ []) i 0

set_fname_off-Split_example :
    Returns (Split 3 path) (set_fname_off (record fresh_flops { full_path = path }) 3)
set_fname_off-Split_example =
    set_fname_off-Split (record fresh_flops { full_path = path }) 3 1 (omega arith) (omega arith)
      (omega arith) refl (λ e. absurd (omega arith))

abbrev os : Answers
os = record {
  calloc = true;
  stat = some 6;
  opened = some 5;
  pipe = none;
  truncated = true;
  mmap = some 4096;
}

abbrev info : CreateInfo
info = record {
  fname = some path;
  size = 0;
  offset = 0;
  create_pipe = false;
  create_dir = true;
  protect = false;
}

no_newline : (k : ℕ) → k < 3 → path k ≢ newline
no_newline zero h e = omega arith
no_newline (suc zero) h e = omega arith
no_newline (suc (suc zero)) h e = omega arith
no_newline (suc (suc (suc k))) h e = omega arith

path-IsName : IsName path 3
path-IsName = (omega arith, refl, no_newline)

-- The caller's context was used before, with a pipe.
abbrev used : Flops
used = record fresh_flops { pipe_read = 7; pipe_write = 8; full_path = λ _. 120 }

create-Mapped_example : Returns (IfCreated (Mapped 6 used)) (create os (some used) (some info))
create-Mapped_example =
    create-Mapped os (some used) used info path 3 refl refl refl path-IsName (omega arith)

-- A file "a" in a folder "b", and a file "\"
abbrev tree : Entries
tree = folder (98 ∷ []) (file (97 ∷ []) no_more) (file (92 ∷ []) no_more)

remove_dir-Stands_example :
    Occurs (remove (47 ∷ 98 ∷ 47 ∷ 97 ∷ [])) (remove_dir [] tree)
    ↔ Stands [] tree (47 ∷ 98 ∷ 47 ∷ 97 ∷ [])
remove_dir-Stands_example = remove_dir-Stands [] (47 ∷ 98 ∷ 47 ∷ 97 ∷ []) tree
