-- ===== src/Mm/Grow.antt =====
-- `udo_mm_alloc` of an arena that is too small, and `udo_mm_sub_alloc` of a size that wraps.
use libcando.Base.{
  ℕ, ◌+◌, ◌-◌, ◌^◌, ◌≤◌, ◌<◌, ◌≡◌, arith, some, List, leb, true, Returns, add64, sub64, ok,
}
use libcando.Base.Memory.{memcpy, store64, inside}
use libcando.Mm.{Mm, header_size, fresh_mm, alloc, sub_alloc}
use libcando.Mm.Arena.{IsValid}

grown : Mm → ℕ → Mm
grown mm size = fresh_mm mm.err (memcpy (λ _. 0) 0 mm.bytes 0 mm.buff_sz) (mm.buff_sz + size)

alloc-grown :
    (mm : Mm) (size : ℕ)
    → mm.data_sz ≤ size
    → mm.buff_sz + size < 2 ^ 64
    → alloc true (some mm) size ≡ ok (some (grown mm size))
unfolding alloc grown
alloc-grown mm size small h =
    let grows : leb mm.data_sz size ≡ true = ground arith in
    let whole : add64 mm.buff_sz size ≡ mm.buff_sz + size = omega arith in
    let fits : leb mm.buff_sz (mm.buff_sz + size) ≡ true = ground arith in rw (grows, whole, fits)

grown_same : (mm : Mm) (size i : ℕ) → i < mm.buff_sz → (grown mm size).bytes i ≡ mm.bytes i
unfolding grown fresh_mm memcpy
grown_same mm size i lt =
    let here : 0 + (i - 0) ≡ i = omega arith in
    let copied : inside 0 mm.buff_sz i ≡ true = ground arith in rw (copied, here)

grown_first :
    (text : List ℕ) (mm : Mm) (size next : ℕ)
    → IsValid mm
    → mm.buff_sz + size < 2 ^ 64
    → next + 8 < size
    → Returns (λ out. out.1 ≡ some (header_size + 8)) (sub_alloc text (some (grown mm size)) next)
unfolding sub_alloc grown fresh_mm
grown_first text mm size next v h fits = ground arith

-- When a valid arena is too small and the mapping succeeds, every byte of the old mapping is in the
-- new one, at the same offset; but the new arena counts no block: the next `udo_mm_sub_alloc`
-- returns the address of the first block of the old arena, whatever was stored there.
pub alloc-sub_alloc :
    (text : List ℕ) (mm : Mm) (size next : ℕ)
    → IsValid mm
    → mm.data_sz ≤ size
    → mm.buff_sz + size < 2 ^ 64
    → next + 8 < size
    → (mm' : Mm) × (alloc true (some mm) size ≡ ok (some mm'))
      × ((i : ℕ) → i < mm.buff_sz → mm'.bytes i ≡ mm.bytes i)
      × Returns (λ out. out.1 ≡ some (header_size + 8)) (sub_alloc text (some mm') next)
alloc-sub_alloc text mm size next v small h fits = (
  grown mm size,
  alloc-grown mm size small h,
  λ i lt. grown_same mm size i lt,
  grown_first text mm size next v h fits,
)

-- A size within eight bytes of the largest wraps in `size += sizeof(size_t)`: a valid arena with
-- more than 16 bytes left answers the request with a block, and moves on by less than eight bytes.
pub sub_alloc-wraps :
    (text : List ℕ) (mm : Mm) (size : ℕ)
    → IsValid mm
    → 2 ^ 64 ≤ size + 8
    → size < 2 ^ 64
    → 16 < mm.ab_sz
    → (mm' : Mm) × (sub_alloc text (some mm) size ≡ ok (some mm', some (mm.offset + 8)))
      × (mm'.offset < mm.offset + 8)
unfolding sub_alloc
sub_alloc-wraps text mm size v wraps h room = (
  record mm {
    bytes = store64 mm.bytes mm.offset (add64 size 8);
    ab_sz = sub64 mm.ab_sz (add64 size 8);
    offset = add64 mm.offset (add64 size 8);
  },
  ground arith,
  omega arith,
)
