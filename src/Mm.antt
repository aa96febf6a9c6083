-- ===== src/Mm.antt =====
-- src/mm.c: one mapping that starts with `struct udo_mm` and is cut into blocks from there on. A
-- block is a `size_t` with the block's whole size, and the caller's bytes behind it. A pointer into
-- the mapping is its offset from `mm`.
pub mod Arena
pub mod Blocks
pub mod Grow
pub mod Free
pub mod Compact
use libcando.Base.{
  ℕ, List, [], replicate, ◌+◌, ◌-◌, ◌*◌, ◌^◌, Option, none, some, Bool, true, false, ltb, leb, ◌&&◌,
  if◌then◌else◌, Outcome, ok, fault, ◌>>=◌, ◌>>◌, within, add64, sub64, u64,
}
use libcando.Base.Memory.{Mem, memset, memcpy, memmove, load64, store64}
use libcando.Log.{ErrorStruct, err_uncommon, buffer_size, set_error}

-- `sizeof(struct udo_mm)`: an error record of 516 bytes, padded to 520, and four sizes.
abbrev pub header_size : ℕ
header_size = 520 + 4 * 8

-- `struct udo_mm`, and the bytes of its mapping. The struct itself lies in the first `header_size`
-- bytes; its fields stand here as fields, and `bytes` counts from `header_size` on.
pub record Mm : Type 0 where
  pub err : ErrorStruct
  pub buff_sz : ℕ
  pub data_sz : ℕ
  pub ab_sz : ℕ
  pub offset : ℕ
  pub bytes : Mem

-- A zeroed error record
unfoldable pub no_error : ErrorStruct
no_error = record { code = 0; buffer = replicate buffer_size 0 }

-- The size of the mapping that `priv_new_virtual_memory_mapping` asks for.
abbrev pub new_size : Option Mm → ℕ → ℕ
new_size none size = add64 header_size size
new_size (some mm) size = add64 mm.buff_sz size

-- A new, zeroed mapping of `new_data_sz` bytes with the struct's sizes set.
pub fresh_mm : ErrorStruct → Mem → ℕ → Mm
fresh_mm err bytes new_data_sz = record {
  err = err;
  buff_sz = new_data_sz;
  data_sz = sub64 new_data_sz header_size;
  ab_sz = sub64 new_data_sz header_size;
  offset = header_size;
  bytes = bytes;
}

-- `priv_new_virtual_memory_mapping`. `mapped` is whether `mmap` succeeds. The old mapping is copied
-- to the start of the new one and given back.
pub new_mapping : (mapped : Bool) → Option Mm → ℕ → Outcome (Option Mm)
new_mapping false mm size = ok none
new_mapping true none size = ok (some (fresh_mm no_error (λ _. 0) (new_size none size)))
new_mapping true (some mm) size =
    let new_data_sz = new_size (some mm) size in
    do
      within (leb mm.buff_sz new_data_sz)
      ok (some (fresh_mm mm.err (memcpy (λ _. 0) 0 mm.bytes 0 mm.buff_sz) new_data_sz))

-- `udo_mm_alloc`
pub alloc : (mapped : Bool) → Option Mm → ℕ → Outcome (Option Mm)
unfolding new_mapping
alloc mapped none size = new_mapping mapped none size
alloc mapped (some mm) size =
    if leb mm.data_sz size then new_mapping mapped (some mm) size else ok (some mm)

-- `udo_mm_sub_alloc`, with the pointer that it returns; `text` is what its error formats to.
pub sub_alloc : List ℕ → Option Mm → ℕ → Outcome (Option Mm × Option ℕ)
sub_alloc text none size = ok (none, none)
sub_alloc text (some mm) size =
    let total = add64 size 8 in
    if leb mm.ab_sz total
    then ok (some (record mm { err = set_error mm.err err_uncommon text }), none)
    else (do
      within (leb (mm.offset + 8) mm.buff_sz)
      ok (
        some (record mm {
          bytes = store64 mm.bytes mm.offset total;
          ab_sz = sub64 mm.ab_sz total;
          offset = add64 mm.offset total;
        }),
        some (mm.offset + 8),
      ))

-- `udo_mm_sub_alloc_get_size` of a pointer into the mapping with these bytes
pub get_size : Mem → Option ℕ → ℕ
get_size bytes none = 2 ^ 64 - 1
get_size bytes (some p) = sub64 (load64 bytes (p - 8)) 8

-- The body of `udo_mm_free` for the block at `p_data`. A block in the struct itself is a fault.
pub free_block : Mm → ℕ → Outcome Mm
free_block mm p_data = do
  within (leb header_size p_data && leb (p_data + 8) mm.buff_sz)
  let data_sz = load64 mm.bytes p_data
  within (leb (p_data + data_sz) mm.buff_sz)
  let mv_data = p_data + data_sz
  let copy_sz = sub64 mm.offset p_data
  within (leb (mv_data + copy_sz) mm.buff_sz)
  let moved = memmove (memset mm.bytes p_data 0 data_sz) p_data mv_data copy_sz
  let ab_sz = add64 mm.ab_sz data_sz
  let clear_sz = sub64 mm.data_sz ab_sz
  within (leb (mv_data + clear_sz) mm.buff_sz)
  ok (record mm {
    bytes = memset moved mv_data 0 clear_sz;
    ab_sz = ab_sz;
    offset = sub64 mm.offset data_sz;
  })

-- `udo_mm_free`
pub free : Option Mm → Option ℕ → Outcome (Option Mm)
unfolding free_block
free none p = ok none
free (some mm) none = ok (some mm)
free (some mm) (some p) = if ltb p 8 then fault else (do mm' ← free_block mm (p - 8); ok (some mm'))

-- `udo_mm_destroy`: the number of bytes that it unmaps.
unfoldable pub destroy : Option Mm → Option ℕ
destroy none = none
destroy (some mm) = some mm.buff_sz
