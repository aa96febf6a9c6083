-- ===== src/Mm/Arena.antt =====
-- The sizes of `struct udo_mm` agree with its mapping, and blocks are cut inside it.
use libcando.Base.{
  ℕ, Bool-cases, inl, inr, ◌+◌, ◌^◌, ◌≤◌, ◌<◌, ◌≡◌, arith, Option, none, some, Bool, true, false,
  List, leb, Returns, add64,
}
use libcando.Mm.{Mm, header_size, fresh_mm, new_mapping, alloc, sub_alloc}

pub record IsValid (mm : Mm) : Type 0 where
  pub small : mm.buff_sz < 2 ^ 64
  pub sized : header_size + mm.data_sz ≡ mm.buff_sz
  pub room : mm.offset + mm.ab_sz ≡ mm.buff_sz
  pub start : header_size ≤ mm.offset

-- A mapping that a caller has, if it has one, is valid.
abbrev pub AllValid : Option Mm → Type 0
AllValid none = Unit {0}
AllValid (some mm) = IsValid mm

-- What `udo_mm_alloc` returns: NULL, or a valid arena for `size` bytes.
abbrev pub Holds : ℕ → Option Mm → Type 0
Holds size none = Unit {0}
Holds size (some mm) = IsValid mm × (size ≤ mm.data_sz)

-- The size of the mapping that `mm` stands for before the sum wraps.
abbrev pub full_size : Option Mm → ℕ → ℕ
full_size none size = header_size + size
full_size (some mm) size = mm.buff_sz + size

new_mapping-IsValid :
    (mapped : Bool) (mm : Mm) (size : ℕ)
    → IsValid mm
    → full_size (some mm) size < 2 ^ 64
    → Returns (Holds size) (new_mapping mapped (some mm) size)
unfolding new_mapping fresh_mm
new_mapping-IsValid false mm size v h = tt
new_mapping-IsValid true mm size v h =
    let fits : leb mm.buff_sz (add64 mm.buff_sz size) ≡ true = ground arith in
    rw fits (
      record { small = omega arith; sized = omega arith; room = omega arith; start = omega arith },
      omega arith,
    )

-- `udo_mm_alloc` returns NULL or a valid arena for `size` bytes, with no access outside its
-- mappings, provided that the size of a new mapping is a 64-bit size.
pub alloc-IsValid :
    (mapped : Bool) (mm : Option Mm) (size : ℕ)
    → AllValid mm
    → full_size mm size < 2 ^ 64
    → Returns (Holds size) (alloc mapped mm size)
unfolding alloc fresh_mm
alloc-IsValid true none size v h = (
  record { small = omega arith; sized = omega arith; room = omega arith; start = omega arith },
  omega arith,
)
alloc-IsValid false none size v h = tt
alloc-IsValid mapped (some mm) size v h = elim (Bool-cases (leb mm.data_sz size)) [
  | inl grows ↦ rw grows (new_mapping-IsValid mapped mm size v h)
  | inr fits ↦ rw fits (v, ground arith)
]

-- `udo_mm_sub_alloc` of a valid arena and a size that does not wrap never leaves the mapping, and
-- the arena that it leaves is valid.
pub sub_alloc-IsValid :
    (text : List ℕ) (mm : Mm) (size : ℕ)
    → IsValid mm
    → size + 8 < 2 ^ 64
    → Returns (λ out. AllValid out.0) (sub_alloc text (some mm) size)
unfolding sub_alloc
sub_alloc-IsValid text mm size v h = ground arith
