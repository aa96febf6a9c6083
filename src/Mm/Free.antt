-- ===== src/Mm/Free.antt =====
-- `udo_mm_free`: when it stays inside the mapping, and what the move and the two clearings leave.
use libcando.Base.{
  ℕ, ◌+◌, ◌-◌, ◌≤◌, ◌<◌, ◌≡◌, ◌∙◌, ◌⊎◌, inl, inr, arith, leb, ltb, if◌then◌else◌, true, false,
  add64, sub64, Bool-cases, ok, fault, Bool, within, ◌>>◌,
}
use libcando.Base.Memory.{inside, load64, memset, memmove}
use libcando.Mm.{Mm, header_size, free_block}
use libcando.Mm.Arena.{IsValid}

-- The arena with the block of `size` bytes at `p` gone, as `udo_mm_free` leaves it.
unfoldable pub freed : Mm → ℕ → ℕ → Mm
freed mm p size = record mm {
  bytes =
      memset (memmove (memset mm.bytes p 0 size) p (p + size) (mm.offset - p)) (p + size) 0
        (mm.data_sz - (mm.ab_sz + size));
  ab_sz = mm.ab_sz + size;
  offset = mm.offset - size;
}

module _ (mm : Mm) (p size : ℕ) (v : IsValid mm) (head : load64 mm.bytes p ≡ size)
    (low : header_size ≤ p) (big : 8 ≤ size) (top : p + size ≤ mm.offset) where
  abbrev clear_fits : Bool
  clear_fits = leb (p + size + (mm.data_sz - (mm.ab_sz + size))) mm.buff_sz

  -- The guards that hold for a block, and the differences that do not wrap.
  free_block-guards : free_block mm p ≡ (do
    within (leb (p + size + (mm.offset - p)) mm.buff_sz)
    within clear_fits
    ok (freed mm p size))
  unfolding free_block freed
  free_block-guards =
      let above : leb header_size p ≡ true = ground arith in
      let sized : leb (p + 8) mm.buff_sz ≡ true = ground arith in
      let inner : leb (p + size) mm.buff_sz ≡ true = ground arith in
      let copy : sub64 mm.offset p ≡ mm.offset - p = omega arith in
      let left : add64 mm.ab_sz size ≡ mm.ab_sz + size = omega arith in
      let clear : sub64 mm.data_sz (mm.ab_sz + size) ≡ mm.data_sz - (mm.ab_sz + size) =
        omega arith in
      let stop : sub64 mm.offset size ≡ mm.offset - size = omega arith in
      rw (above, sized, head, inner, copy, left, clear, stop)

  pub free_block-freed :
      size ≤ mm.ab_sz
      → (p - header_size) + (mm.offset - header_size) ≤ mm.data_sz
      → free_block mm p ≡ ok (freed mm p size)
  free_block-freed room slack =
      let move : leb (p + size + (mm.offset - p)) mm.buff_sz ≡ true = ground arith in
      let clear : clear_fits ≡ true = ground arith in free_block-guards ∙ rw (move, clear)

  pub free_block-fault :
      (mm.ab_sz < size) ⊎ (mm.data_sz < (p - header_size) + (mm.offset - header_size))
      → free_block mm p ≡ fault
  free_block-fault bad = elim (Bool-cases (leb (p + size + (mm.offset - p)) mm.buff_sz)) [
    | inl move ↦
        let clear : clear_fits ≡ false = ground arith in free_block-guards ∙ rw (move, clear)
    | inr over ↦ free_block-guards ∙ rw over
  ]

  pub freed-IsValid : IsValid (freed mm p size)
  unfolding freed
  freed-IsValid = record {
    small = v.small;
    sized = v.sized;
    room = omega arith;
    start = omega arith;
  }

  pub freed_below : (i : ℕ) → i < p → (freed mm p size).bytes i ≡ mm.bytes i
  unfolding freed memset memmove
  freed_below i lt = ground arith

  -- The bytes behind the block, in their new place.
  pub freed_moved :
      (i : ℕ)
      → p ≤ i
      → i < mm.offset - size
      → (freed mm p size).bytes i ≡ (if ltb i (p + size) then mm.bytes (i + size) else 0)
  unfolding freed memset memmove
  freed_moved i lo hi =
      let moved : p + size + (i - p) ≡ i + size = omega arith in
      elim (Bool-cases (ltb i (p + size))) [
        | inl first ↦
            let clear : inside (p + size) (mm.data_sz - (mm.ab_sz + size)) i ≡ false =
              ground arith in
            let move : inside p (mm.offset - p) i ≡ true = ground arith in
            let keep : inside p size (i + size) ≡ false = ground arith in
            rw (first, clear, move, moved, keep)
        | inr behind ↦
            let clear : inside (p + size) (mm.data_sz - (mm.ab_sz + size)) i ≡ true =
              ground arith in
            rw (behind, clear)
      ]
