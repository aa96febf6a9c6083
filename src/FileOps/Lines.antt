-- ===== src/FileOps/Lines.antt =====
-- The lines of a mapped file
use libcando.Base.{
  ℕ, zero, suc, ◌+◌, ◌-◌, ◌<◌, ◌≤◌, ◌^◌, ◌≡◌, refl, ◌≢◌, ◌⊎◌, arith, ◌||◌, Option, none, some, List,
  [], ◌∷◌, length, ◌==◌, if◌then◌else◌, sub64,
}
use libcando.Base.Memory.{Mem}
use libcando.FileOps.{Flops, newline, minus_one}

-- The loop of `udo_file_ops_get_line` over `n` more bytes: the offset and the column it stops at
scan_line : (n offset c line p_line : ℕ) → Mem → ℕ × ℕ
scan_line zero offset c line p_line bytes = (offset, c)
scan_line (suc n) offset c line p_line bytes =
    let same = scan_line n (offset + 1) (c + 1) line p_line bytes in
    let next = scan_line n (offset + 1) (0 + 1) (line + 1) p_line bytes in
    if bytes offset == newline then if line + 1 == p_line then (offset, c) else next else same

-- `udo_file_ops_get_line` of the bytes that are mapped: the offset from their start
pub get_line : Flops → Mem → (p_line : ℕ) → Option ℕ
unfolding scan_line
get_line flops bytes p_line =
    if flops.data_ptr == 0 || p_line == 0
    then none
    else let stop = scan_line flops.data_sz 0 0 0 p_line bytes in
      some (sub64 stop.0 (sub64 stop.1 (if p_line == 1 then 0 else 1)))

count_lines : (n offset line : ℕ) → Mem → ℕ
count_lines zero offset line bytes = line
count_lines (suc n) offset line bytes =
    count_lines n (offset + 1) (if bytes offset == newline then line + 1 else line) bytes

-- `udo_file_ops_get_line_count`
pub get_line_count : Flops → Mem → ℕ
unfolding count_lines
get_line_count flops bytes =
    if flops.data_ptr == 0 then minus_one else count_lines flops.data_sz 0 0 bytes

-- The offsets behind the newlines among `n` bytes, which is where the lines after the first start
abbrev pub line_starts : (n offset : ℕ) → Mem → List ℕ
line_starts zero offset bytes = []
line_starts (suc n) offset bytes =
    if bytes offset == newline
    then (offset + 1) ∷ line_starts n (offset + 1) bytes
    else line_starts n (offset + 1) bytes

-- The start number `k` of `start ∷ starts`, or the last one
abbrev pub start_of : (start : ℕ) → (starts : List ℕ) → (k : ℕ) → ℕ
start_of start [] k = start
start_of start (s ∷ starts) zero = start
start_of start (s ∷ starts) (suc k) = start_of s starts k

-- The scan stops at `r`, in the line that starts at `start`: the column counts from `first` there.
abbrev Stops : (first start last : ℕ) → ℕ × ℕ → Type 0
Stops first start last r = (r.0 + first ≡ start + r.1) × (r.0 ≤ last)

-- Behind the first newline the column counts from 1.
scan_line-later :
    (n offset c line k start : ℕ) (bytes : Mem)
    → offset + 1 ≡ start + c
    → Stops 1
        (start_of start (line_starts n offset bytes) k)
        (offset + n)
        (scan_line n offset c line (line + 1 + k) bytes)
unfolding scan_line
scan_line-later zero offset c line k start bytes h = ground arith
scan_line-later (suc n) offset c line zero start bytes h =
    ground (arith, scan_line-later n (offset + 1) (c + 1) line 0 start bytes)
scan_line-later (suc n) offset c line (suc k) start bytes h = ground (
  arith,
  scan_line-later n (offset + 1) (c + 1) line (suc k) start bytes,
  scan_line-later n (offset + 1) 1 (line + 1) k (offset + 1) bytes,
)

scan_line-first :
    (n offset : ℕ) (bytes : Mem) → Stops 0 0 (offset + n) (scan_line n offset offset 0 1 bytes)
unfolding scan_line
scan_line-first zero offset bytes = ground arith
scan_line-first (suc n) offset bytes = ground (arith, scan_line-first n (offset + 1) bytes)

scan_line-next :
    (n offset k : ℕ) (bytes : Mem)
    → 0 < length (line_starts n offset bytes)
    → Stops 1
        (start_of 0 (line_starts n offset bytes) (suc k))
        (offset + n)
        (scan_line n offset offset 0 (suc (suc k)) bytes)
unfolding scan_line
scan_line-next zero offset k bytes h = absurd (omega arith)
scan_line-next (suc n) offset k bytes h = ground (
  arith,
  scan_line-next n (offset + 1) k bytes,
  scan_line-later n (offset + 1) 1 1 k (offset + 1) bytes,
)

scan_line-none :
    (n offset k : ℕ) (bytes : Mem)
    → length (line_starts n offset bytes) ≡ 0
    → scan_line n offset offset 0 k bytes ≡ (offset + n, offset + n)
unfolding scan_line
scan_line-none zero offset k bytes h = ground arith
scan_line-none (suc n) offset k bytes h = ground (arith, scan_line-none n (offset + 1) k bytes)

count_lines-length :
    (n offset line : ℕ) (bytes : Mem)
    → count_lines n offset line bytes ≡ line + length (line_starts n offset bytes)
unfolding count_lines
count_lines-length zero offset line bytes = omega arith
count_lines-length (suc n) offset line bytes = ground (
  arith,
  count_lines-length n (offset + 1) line bytes,
  count_lines-length n (offset + 1) (line + 1) bytes,
)

start_of-zero : (start : ℕ) (starts : List ℕ) → start_of start starts 0 ≡ start
start_of-zero start [] = refl
start_of-zero start (s ∷ starts) = refl

sub64-first : (a b n : ℕ) → a + 0 ≡ 0 + b → a ≤ n → n < 2 ^ 64 - 1 → sub64 a (sub64 b 0) ≡ 0
sub64-first a b n e h small = omega arith

sub64-next : (a b s n : ℕ) → a + 1 ≡ s + b → a ≤ n → n < 2 ^ 64 - 1 → sub64 a (sub64 b 1) ≡ s
sub64-next a b s n e h small = omega arith

-- The count of the lines of a mapped file is the number of its newlines: a last line without one is
-- not counted.
pub get_line_count-starts :
    (flops : Flops) (bytes : Mem)
    → flops.data_ptr ≢ 0
    → get_line_count flops bytes ≡ length (line_starts flops.data_sz 0 bytes)
unfolding get_line_count
get_line_count-starts flops bytes h = ground (arith, count_lines-length flops.data_sz 0 0 bytes)

-- `udo_file_ops_get_line` of a mapped file of fewer than 2 ^ 64 - 1 bytes answers where line
-- `p_line`, counted from 1, starts: at 0, or right behind the newline before it. A number past the
-- last line answers the last one. The file has a newline, or the first line is asked for.
pub get_line-start :
    (flops : Flops) (bytes : Mem) (p_line : ℕ)
    → flops.data_ptr ≢ 0
    → flops.data_sz < 2 ^ 64 - 1
    → 0 < p_line
    → (p_line ≡ 1) ⊎ (0 < length (line_starts flops.data_sz 0 bytes))
    → get_line flops bytes p_line
      ≡ some (start_of 0 (line_starts flops.data_sz 0 bytes) (p_line - 1))
unfolding get_line
get_line-start flops bytes zero h small positive some_line = absurd (omega arith)
get_line-start flops bytes (suc zero) h small positive some_line =
    let stop = scan_line flops.data_sz 0 0 0 1 bytes in
    let at = scan_line-first flops.data_sz 0 bytes in
    ground (
      arith,
      sub64-first stop.0 stop.1 flops.data_sz at.0 (omega (arith, at.1)) small,
      start_of-zero 0 (line_starts flops.data_sz 0 bytes),
    )
get_line-start flops bytes (suc (suc k)) h small positive some_line =
    let stop = scan_line flops.data_sz 0 0 0 (suc (suc k)) bytes in
    let start = start_of 0 (line_starts flops.data_sz 0 bytes) (suc k) in
    let at = scan_line-next flops.data_sz 0 k bytes (ground arith) in
    ground (arith, sub64-next stop.0 stop.1 start flops.data_sz at.0 (omega (arith, at.1)) small)

-- In a mapped file with no newline, `udo_file_ops_get_line` of any line but the first answers
-- offset 1, inside the only line, or behind the end of an empty file.
pub get_line-unbroken :
    (flops : Flops) (bytes : Mem) (p_line : ℕ)
    → flops.data_ptr ≢ 0
    → flops.data_sz < 2 ^ 64
    → 1 < p_line
    → length (line_starts flops.data_sz 0 bytes) ≡ 0
    → get_line flops bytes p_line ≡ some 1
unfolding get_line
get_line-unbroken flops bytes p_line h small later none_left =
    ground (arith, scan_line-none flops.data_sz 0 p_line bytes none_left)
