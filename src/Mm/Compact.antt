-- ===== src/Mm/Compact.antt =====
-- `udo_mm_free` on the list of blocks.
use libcando.Base.{
  ℕ, ◌+◌, ◌-◌, ◌≤◌, ◌<◌, ◌≡◌, ◌∙◌, ap, ◌⊎◌, arith, some, List, [], ◌∷◌, ◌++◌, ltb, if◌then◌else◌,
  false, ok, fault,
}
use libcando.Base.Memory.{Mem, load64, load64_moved}
use libcando.Mm.{Mm, header_size, free}
use libcando.Mm.Arena.{IsValid}
use libcando.Mm.Blocks.{sum, Chain, Blocks, Chain-end, Chain-same, Chain-append}
use libcando.Mm.Free.{
  freed, free_block-freed, free_block-fault, freed-IsValid, freed_below, freed_moved,
}

sum-append : (ss ts : List ℕ) → sum (ss ++ ts) ≡ sum ss + sum ts
sum-append [] ts = omega arith
sum-append (s ∷ ss) ts = omega (arith, sum-append ss ts)

Chain-split :
    (m : Mem) (p : ℕ) (ss ts : List ℕ) (e : ℕ)
    → Chain m p (ss ++ ts) e
    → Chain m p ss (p + sum ss) × Chain m (p + sum ss) ts e
Chain-split m p [] ts e c = let here : p ≡ p + 0 = omega arith in (here, rw (← here) c)
Chain-split m p (s ∷ ss) ts e (size, big, c) =
    let (front, back) = Chain-split m (p + s) ss ts e c in
    let same : p + s + sum ss ≡ p + (s + sum ss) = omega arith in
    ((size, big, rw same at front), rw same at back)

-- A chain that has moved down by `d` bytes
Chain-moved :
    (m m' : Mem) (p d : ℕ) (ss : List ℕ) (e : ℕ)
    → ((i : ℕ) → p ≤ i → i < e → m' i ≡ m (i + d))
    → Chain m (p + d) ss (e + d)
    → Chain m' p ss e
Chain-moved m m' p d [] e moved c = omega arith
Chain-moved m m' p d (s ∷ ss) e moved (size, big, c) =
    let stop = Chain-end m (p + d + s) ss (e + d) c in
    let next : p + d + s ≡ p + s + d = omega arith in
    (
      load64_moved m m' p (p + d)
            (λ k lt. moved (p + k) (omega arith) (omega arith) ∙ ap m (omega arith))
          ∙ size,
      big,
      Chain-moved m m' (p + s) d ss e (λ i lo hi. moved i (omega arith) hi) (rw next at c),
    )

-- The block behind the blocks `before` of an arena, and what its address leads to.
record At (mm : Mm) (before : List ℕ) (size : ℕ) (after : List ℕ) : Type 0 where
  front : Chain mm.bytes header_size before (header_size + sum before)
  head : load64 mm.bytes (header_size + sum before) ≡ size
  big : 8 ≤ size
  back : Chain mm.bytes (header_size + sum before + size) after mm.offset
  top : mm.offset ≡ header_size + sum before + size + sum after

Blocks-At :
    (mm : Mm) (before : List ℕ) (size : ℕ) (after : List ℕ)
    → Blocks mm (before ++ (size ∷ after))
    → At mm before size after
Blocks-At mm before size after b =
    let (front, rest) = Chain-split mm.bytes header_size before (size ∷ after) mm.offset b.chain in
    let stop = Chain-end mm.bytes (header_size + sum before + size) after mm.offset rest.2 in
    record { front = front; head = rest.0; big = rest.1; back = rest.2; top = stop }

-- Where the block behind the blocks `before` starts.
abbrev pub address : List ℕ → ℕ
address before = header_size + sum before

-- The bytes in front of that block, with the bytes of all blocks
abbrev pub reach : List ℕ → ℕ → List ℕ → ℕ
reach before size after = sum before + (sum before + size + sum after)

module _ (mm : Mm) (before : List ℕ) (size : ℕ) (after : List ℕ)
    (b : Blocks mm (before ++ (size ∷ after))) where
  at : At mm before size after
  at = Blocks-At mm before size after b

  -- `udo_mm_free` of the block behind `before` leaves the mapping when the block is larger than
  -- what is left behind all blocks, or when the bytes in front of the block, with the bytes of all
  -- blocks, are more than the data area holds.
  pub free-fault :
      (mm.ab_sz < size) ⊎ (mm.data_sz < reach before size after)
      → free (some mm) (some (address before + 8)) ≡ fault
  unfolding free
  free-fault bad =
      let pointer : ltb (address before + 8) 8 ≡ false = ground arith in
      let block : address before + 8 - 8 ≡ address before = omega arith in
      let out =
        free_block-fault mm (address before) size b.valid at.head (omega arith) at.big
          (omega (arith, at.top)) (ground (arith, at.top)) in
      rw (pointer, block, out)

  free-freed :
      size ≤ mm.ab_sz
      → reach before size after ≤ mm.data_sz
      → free (some mm) (some (address before + 8)) ≡ ok (some (freed mm (address before) size))
  unfolding free
  free-freed room slack =
      let pointer : ltb (address before + 8) 8 ≡ false = ground arith in
      let block : address before + 8 - 8 ≡ address before = omega arith in
      let out =
        free_block-freed mm (address before) size b.valid at.head (omega arith) at.big
          (omega (arith, at.top)) room (omega (arith, at.top)) in
      rw (pointer, block, out)

  -- Where `udo_mm_free` of the block behind `before` stays inside the mapping: the arena that it
  -- leaves is valid, the bytes in front of the block stay, and of the bytes behind it the first
  -- `size` move down by `size` bytes. All that should follow them, up to the new end of the
  -- blocks, is zero.
  pub free-bytes :
      size ≤ mm.ab_sz
      → reach before size after ≤ mm.data_sz
      → (mm' : Mm) × (free (some mm) (some (address before + 8)) ≡ ok (some mm'))
        × IsValid mm'
        × (mm'.offset + size ≡ mm.offset)
        × ((i : ℕ) → i < address before → mm'.bytes i ≡ mm.bytes i)
        × ((i : ℕ)
            → address before ≤ i
            → i < mm'.offset
            → mm'.bytes i ≡ (if ltb i (address before + size) then mm.bytes (i + size) else 0))
  unfolding freed
  free-bytes room slack =
      let top = at.top in
      let below : address before + size ≤ mm.offset = omega arith in
      (
        freed mm (address before) size,
        free-freed room slack,
        freed-IsValid mm (address before) size b.valid at.head (omega arith) at.big below,
        omega arith,
        freed_below mm (address before) size b.valid at.head (omega arith) at.big below,
        freed_moved mm (address before) size b.valid at.head (omega arith) at.big below,
      )

  -- Where `udo_mm_free` of the block behind `before` stays inside the mapping and the blocks
  -- behind the freed one have no more bytes than it, the arena that it leaves has the other
  -- blocks, in their order.
  pub free-Blocks :
      size ≤ mm.ab_sz
      → reach before size after ≤ mm.data_sz
      → sum after ≤ size
      → (mm' : Mm) × (free (some mm) (some (address before + 8)) ≡ ok (some mm'))
        × Blocks mm' (before ++ after)
  free-Blocks room slack short =
      let (mm', out, valid, top', below, moved) = free-bytes room slack in
      let top = at.top in
      let stop : mm'.offset ≡ address before + sum after = omega arith in
      let front =
        Chain-same mm.bytes mm'.bytes header_size before (address before) (λ i lo hi. below i hi)
          at.front in
      let back =
        Chain-moved mm.bytes mm'.bytes (address before) size after mm'.offset
          (λ i lo hi. ground (arith, moved i lo hi)) (rw top' at.back) in
      (
        mm',
        out,
        record {
          valid = valid;
          chain =
              Chain-append mm'.bytes header_size before after (address before) mm'.offset front
                back;
        },
      )
