-- ===== src/Mm/Blocks.antt =====
-- The blocks of an arena as the list of their sizes, and what `udo_mm_sub_alloc` does to it.
use libcando.Base.{ℕ, ◌+◌, ◌≤◌, ◌<◌, ◌≡◌, ◌∙◌, arith, Option, none, some, List, [], ◌∷◌, ◌++◌}
use libcando.Base.Memory.{Mem, load64, load64_eq}
use libcando.Mm.{Mm, header_size, get_size}
use libcando.Mm.Arena.{IsValid}

abbrev pub sum : List ℕ → ℕ
sum [] = 0
sum (s ∷ ss) = s + sum ss

-- Blocks of these sizes, one behind the other from `p` to `e`, each with its size in front.
abbrev pub Chain : Mem → ℕ → List ℕ → ℕ → Type 0
Chain m p [] e = p ≡ e
Chain m p (s ∷ ss) e = (load64 m p ≡ s) × (8 ≤ s) × Chain m (p + s) ss e

-- A valid arena whose blocks have these sizes, the caller's bytes and the size in front together.
pub record Blocks (mm : Mm) (sizes : List ℕ) : Type 0 where
  pub valid : IsValid mm
  pub chain : Chain mm.bytes header_size sizes mm.offset

pub Chain-end : (m : Mem) (p : ℕ) (ss : List ℕ) (e : ℕ) → Chain m p ss e → e ≡ p + sum ss
Chain-end m p [] e c = omega arith
Chain-end m p (s ∷ ss) e c = omega (arith, Chain-end m (p + s) ss e c.2)

-- A chain reads no byte at or above its end.
pub Chain-same :
    (m m' : Mem) (p : ℕ) (ss : List ℕ) (e : ℕ)
    → ((i : ℕ) → p ≤ i → i < e → m' i ≡ m i)
    → Chain m p ss e
    → Chain m' p ss e
Chain-same m m' p [] e same c = c
Chain-same m m' p (s ∷ ss) e same (size, big, c) =
    let stop = Chain-end m (p + s) ss e c in
    (
      load64_eq m' m p (λ i lo hi. same i lo (omega arith)) ∙ size,
      big,
      Chain-same m m' (p + s) ss e (λ i lo hi. same i (omega arith) hi) c,
    )

pub Chain-append :
    (m : Mem) (p : ℕ) (ss ts : List ℕ) (e f : ℕ)
    → Chain m p ss e
    → Chain m e ts f
    → Chain m p (ss ++ ts) f
Chain-append m p [] ts e f c d = rw c d
Chain-append m p (s ∷ ss) ts e f (size, big, c) d =
    (size, big, Chain-append m (p + s) ss ts e f c d)

-- What `udo_mm_sub_alloc` of `size` bytes leaves of an arena with these blocks, and returns.
abbrev pub Allocated : Mm → List ℕ → ℕ → Option Mm × Option ℕ → Type 0
Allocated mm sizes size (none, p) = ⊥
Allocated mm sizes size (some mm', none) =
    (mm.data_sz ≤ sum sizes + (size + 8)) × (mm' ≡ record mm { err = mm'.err }) × Blocks mm' sizes
Allocated mm sizes size (some mm', some p) =
    (sum sizes + (size + 8) < mm.data_sz)
    × (p ≡ header_size + sum sizes + 8)
    × (get_size mm'.bytes (some p) ≡ size)
    × Blocks mm' (sizes ++ ((size + 8) ∷ []))
    × ((i : ℕ) → i < mm.offset → mm'.bytes i ≡ mm.bytes i)
