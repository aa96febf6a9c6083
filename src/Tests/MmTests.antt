-- ===== src/Tests/MmTests.antt =====
-- src/mm.c at concrete arenas
use libcando.Base.{
  ℕ, ◌+◌, ◌<◌, ◌≤◌, ◌≡◌, refl, arith, some, true, [], ◌∷◌, ltb, if◌then◌else◌, Returns, ok,
}
use libcando.Base.Memory.{Mem, load64}
use libcando.Log.{ErrorStruct}
use libcando.Mm.{Mm, alloc, free}
use libcando.Mm.Arena.{IsValid, Holds, alloc-IsValid}
use libcando.Mm.Blocks.{Blocks}
use libcando.Mm.Compact.{address, free-bytes, free-Blocks}

abbrev empty_error : ErrorStruct
empty_error = record { code = 0; buffer = [] }

-- Two blocks, of 40 and 24 bytes, in a data area of 200 bytes
abbrev bytes : Mem
bytes i =
    if ltb i 552
    then 0
    else if ltb i 553
    then 40
    else if ltb i 592
    then 0
    else if ltb i 593
    then 24
    else 0

abbrev two_blocks : Mm
two_blocks = record {
  err = empty_error;
  buff_sz = 752;
  data_sz = 200;
  ab_sz = 136;
  offset = 616;
  bytes = bytes;
}

two_blocks-IsValid : IsValid two_blocks
two_blocks-IsValid = record { small = omega arith; sized = refl; room = refl; start = omega arith }

two_blocks-Blocks : Blocks two_blocks (40 ∷ 24 ∷ [])
unfolding load64
two_blocks-Blocks = record {
  valid = two_blocks-IsValid;
  chain = (refl, omega arith, (refl, omega arith, refl));
}

alloc-IsValid_example : Returns (Holds 500) (alloc true (some two_blocks) 500)
alloc-IsValid_example = alloc-IsValid true (some two_blocks) 500 two_blocks-IsValid (omega arith)

-- A full arena: the last block is as large as all that is left, and more.
abbrev full : Mm
full = record two_blocks { buff_sz = 632; data_sz = 80; ab_sz = 16 }

full-Blocks : Blocks full (40 ∷ 24 ∷ [])
unfolding load64
full-Blocks = record {
  valid = record { small = omega arith; sized = refl; room = refl; start = omega arith };
  chain = (refl, omega arith, (refl, omega arith, refl));
}

free-bytes_example :
    (mm' : Mm) × (free (some two_blocks) (some (address [] + 8)) ≡ ok (some mm'))
    × IsValid mm'
    × (mm'.offset + 40 ≡ 616)
    × ((i : ℕ) → i < address [] → mm'.bytes i ≡ bytes i)
    × ((i : ℕ)
        → address [] ≤ i
        → i < mm'.offset
        → mm'.bytes i ≡ (if ltb i (address [] + 40) then bytes (i + 40) else 0))
free-bytes_example =
    free-bytes two_blocks [] 40 (24 ∷ []) two_blocks-Blocks (omega arith) (omega arith)

free-Blocks_example :
    (mm' : Mm) × (free (some two_blocks) (some (address [] + 8)) ≡ ok (some mm'))
    × Blocks mm' (24 ∷ [])
free-Blocks_example =
    free-Blocks two_blocks [] 40 (24 ∷ []) two_blocks-Blocks (omega arith) (omega arith)
      (omega arith)
